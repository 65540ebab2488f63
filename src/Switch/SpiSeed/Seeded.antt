-- ===== src/Switch/SpiSeed/Seeded.antt =====
-- The flash after the writes of an accepted profile.
use swbt_daemon.Common.{ℕ, zero, suc, ◌+◌, ◌<◌, ◌≡◌, ◌∙◌, arith, All}
use swbt_daemon.Switch.Spi.{Spi, ok}
use swbt_daemon.Switch.SpiSeed.{
  SeedEntry, SeedProfile, range, entry_range, fixed_ranges, entries_at, write_entries,
  write_profile,
}
use swbt_daemon.Switch.SpiSeed.Validate.{Apart, IsAcceptedProfile}
use swbt_daemon.Switch.SpiSeed.Store.{
  byte_at, Apart-Outside, store_all, write_entries-ok, store_all-Outside, store_all_inside,
}
use swbt_daemon.Switch.SpiSeed.Fixed.{
  fixed_entry, fixed_size, fixed_address, fixed_entry-address, fixed_entry-sized, fixed_entry-Apart,
  write_fixed,
}

module _ (p : SeedProfile) (ok_p : IsAcceptedProfile p) where
  unfoldable pub after_fixed : Spi → Spi
  after_fixed spi = store_all (fixed_entry p) 8 0 spi

  -- The eight writes succeed, and the extra entries come after them.
  write_profile-eq :
      (spi : Spi)
      → write_profile p spi
        ≡ write_entries (entries_at p.extra_entries) p.extra_entry_count 0 (after_fixed spi)
  unfolding write_profile after_fixed store_all
  write_profile-eq spi = rw (write_fixed p ok_p 0 spi (omega arith)) (
      rw (write_fixed p ok_p 1 _ (omega arith)) (
        rw (write_fixed p ok_p 2 _ (omega arith)) (
          rw (write_fixed p ok_p 3 _ (omega arith)) (
            rw (write_fixed p ok_p 4 _ (omega arith)) (
              rw (write_fixed p ok_p 5 _ (omega arith)) (
                rw (write_fixed p ok_p 6 _ (omega arith))
                  (rw (write_fixed p ok_p 7 _ (omega arith)))))))))

  unfoldable pub extra : ℕ → SeedEntry
  extra = entries_at p.extra_entries

  unfoldable pub seeded : Spi → Spi
  seeded spi = store_all extra p.extra_entry_count 0 (after_fixed spi)

  pub write_profile-ok : (spi : Spi) → write_profile p spi ≡ (ok, seeded spi)
  unfolding seeded extra
  write_profile-ok spi =
      write_profile-eq spi
      ∙ write_entries-ok (entries_at p.extra_entries) p.extra_entry_count 0 (after_fixed spi)
          (λ i u v. (ok_p.extra i (omega arith)).storable)

  off_fixed :
      (i e : ℕ)
      → i < 8
      → e < p.extra_entry_count
      → Apart (entry_range (extra e)) (entry_range (fixed_entry p i))
  unfolding extra
  off_fixed i e h k =
      let a = (ok_p.extra e k).off_fixed in
      ground (arith, fixed_entry-address p ok_p i, fixed_entry-sized p ok_p i, table i a)
    where
      table :
          (i : ℕ)
          → All (Apart (entry_range (extra e))) fixed_ranges
          → Apart (entry_range (extra e)) (range (fixed_address i) (fixed_size i))
      table zero a = a.0
      table (suc zero) a = a.1.0
      table (suc (suc zero)) a = a.1.1.0
      table (suc (suc (suc zero))) a = a.1.1.1.0
      table (suc (suc (suc (suc zero)))) a = a.1.1.1.1.0
      table (suc (suc (suc (suc (suc zero))))) a = a.1.1.1.1.1.0
      table (suc (suc (suc (suc (suc (suc zero)))))) a = a.1.1.1.1.1.1.0
      table (suc (suc (suc (suc (suc (suc (suc zero))))))) a = a.1.1.1.1.1.1.1.0
      table (suc (suc (suc (suc (suc (suc (suc (suc i)))))))) a = a.1.1.1.1.1.1.1.0

  pub seeded-fixed :
      (spi : Spi) (i o : ℕ)
      → i < 8
      → o < (fixed_entry p i).data_len
      → (seeded spi).bytes ((fixed_entry p i).address + o) ≡ byte_at (fixed_entry p i).bytes o
  unfolding seeded after_fixed
  seeded-fixed spi i o h k =
      store_all-Outside extra p.extra_entry_count 0 ((fixed_entry p i).address + o)
        (after_fixed spi)
        (λ e u v.
          Apart-Outside (entry_range (fixed_entry p i)) (entry_range (extra e)) o
            (off_fixed i e h (omega arith)) k)
      ∙ store_all_inside (fixed_entry p) 8 0 i o spi
          (λ a b u v. fixed_entry-Apart p ok_p a b u (omega arith)) (omega arith) (omega arith) k

  pub seeded-extra :
      (spi : Spi) (e o : ℕ)
      → e < p.extra_entry_count
      → o < (extra e).data_len
      → (seeded spi).bytes ((extra e).address + o) ≡ byte_at (extra e).bytes o
  unfolding seeded extra
  seeded-extra spi e o h k =
      store_all_inside (entries_at p.extra_entries) p.extra_entry_count 0 e o (after_fixed spi)
        (λ a b u v. (ok_p.extra b (omega arith)).off_previous a u) (omega arith) (omega arith) k
