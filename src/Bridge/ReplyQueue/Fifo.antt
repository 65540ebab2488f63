-- ===== src/Bridge/ReplyQueue/Fifo.antt =====
-- The queue as a list: replies leave in the order in which they were accepted.
use swbt_daemon.Common.{
  ℕ, zero, suc, ◌+◌, ◌-◌, ◌%◌, ◌≤◌, ◌<◌, ◌≡◌, ◌≢◌, refl, ap, sym, ◌∙◌, ◌⊎◌, ◌↔◌, false, ltb,
  if◌then◌else◌, is_null, Option, none, some, List, [], ◌∷◌, ◌++◌, arith,
}
use swbt_daemon.Common.Buffer.{Buffer, fill, fill_lem}
use swbt_daemon.Common.Int.{pos}
use swbt_daemon.Bridge.ReplyQueue.{
  ReplyQueue, QueueItem, SendCallback, ok, empty, send_failed, put, enqueue, send_next,
  enqueue_index, drop_head, filled_item, clear_item,
}

-- The `n` items from a position on, round the array.
unfoldable pub items_from : (ℕ → QueueItem) → ℕ → ℕ → List QueueItem
items_from items at zero = []
items_from items at (suc n) = items (at % 4) ∷ items_from items (at + 1) n

unfoldable pub contents : ReplyQueue → List QueueItem
contents queue = items_from queue.items queue.head queue.count

pub record IsValid (queue : ReplyQueue) : Type 0 where
  pub head_inside : queue.head < 4
  pub not_above : queue.count ≤ 4

-- A write outside the window is not seen in it.
items_from-put :
    (items : ℕ → QueueItem) (at n slot : ℕ) (item : QueueItem)
    → ((i : ℕ) → i < n → (at + i) % 4 ≢ slot)
    → items_from (put items slot item) at n ≡ items_from items at n
unfolding items_from
items_from-put items at zero slot item off = refl
items_from-put items at (suc n) slot item off =
    let first : put items slot item (at % 4) ≡ items (at % 4) = ground (arith, off 0) in
    let rest =
      items_from-put items (at + 1) n slot item
        (λ j h e. off (suc j) (omega arith) (omega arith)) in
    λ i. first i ∷ rest i

-- The last item of a window.
items_from_last :
    (items : ℕ → QueueItem) (at n : ℕ)
    → items_from items at (suc n) ≡ items_from items at n ++ (items ((at + n) % 4) ∷ [])
unfolding items_from
items_from_last items at zero = ap (λ (k : ℕ). items (k % 4) ∷ []) (omega arith)
items_from_last items at (suc n) =
    let rest =
      items_from_last items (at + 1) n
      ∙ ap (λ (k : ℕ). items_from items (at + 1) n ++ (items (k % 4) ∷ [])) {x = at + 1 + n}
          {y = at + suc n} (omega arith) in
    λ i. items (at % 4) ∷ rest i

-- A window depends on its position modulo 4.
items_from_round :
    (items : ℕ → QueueItem) (at at' n : ℕ)
    → at % 4 ≡ at' % 4
    → items_from items at n ≡ items_from items at' n
unfolding items_from
items_from_round items at at' zero e = refl
items_from_round items at at' (suc n) e =
    λ i. items (e i) ∷ items_from_round items (at + 1) (at' + 1) n (omega arith) i

-- A report that is accepted goes to the end.
enqueue-accepted :
    (queue : ReplyQueue) (hid_cid report_size : ℕ) (report : Buffer)
    → 1 ≤ report_size
    → report_size ≤ 50
    → queue.count < 4
    → enqueue queue hid_cid (some report) report_size ≡ (
      ok,
      record queue {
        items =
            put queue.items
              (enqueue_index queue)
              (filled_item (queue.items (enqueue_index queue)) hid_cid report report_size);
        count = queue.count + 1;
      },
    )
unfolding enqueue
enqueue-accepted queue hid_cid report_size report h k l = ground arith

put-same : (items : ℕ → QueueItem) (slot : ℕ) (item : QueueItem) → put items slot item slot ≡ item
put-same items slot item = ground arith

put-contents :
    (queue : ReplyQueue) (item : QueueItem)
    → IsValid queue
    → queue.count < 4
    → items_from (put queue.items (enqueue_index queue) item) queue.head (queue.count + 1)
      ≡ contents queue ++ (item ∷ [])
unfolding contents enqueue_index
put-contents queue item v h =
    let slot = (queue.head + queue.count) % 4 in
    ap (items_from (put queue.items slot item) queue.head) {x = queue.count + 1}
      {y = suc queue.count} (omega arith)
    ∙ items_from_last (put queue.items slot item) queue.head queue.count
    ∙ ap (λ xs. xs ++ (put queue.items slot item slot ∷ []))
        (items_from-put queue.items queue.head queue.count slot item (λ i p e. omega arith))
    ∙ ap (λ x. items_from queue.items queue.head queue.count ++ (x ∷ []))
        (put-same queue.items slot item)

-- A report of 1 to 50 bytes that meets a queue with room is accepted: it is appended to the waiting
-- items with its channel, its size, its bytes and zeros up to 50, and the queue stays valid.
pub enqueue_appends :
    (queue : ReplyQueue) (hid_cid report_size j : ℕ) (report : Buffer)
    → IsValid queue
    → 1 ≤ report_size
    → report_size ≤ 50
    → queue.count < 4
    → j < 50
    → let (result, queue') = enqueue queue hid_cid (some report) report_size in
      (result ≡ ok)
      × IsValid queue'
      × (item : QueueItem) × (contents queue' ≡ contents queue ++ (item ∷ []))
      × (item.hid_cid ≡ hid_cid)
      × (item.report_size ≡ report_size)
      × (item.report j ≡ (if ltb j report_size then report j else 0))
enqueue_appends queue hid_cid report_size j report v h k l jh =
    let old = queue.items (enqueue_index queue) in
    let item = filled_item old hid_cid report report_size in
    rw (enqueue-accepted queue hid_cid report_size report h k l) (
      refl,
      record { head_inside = v.head_inside; not_above = omega arith },
      item,
      unfold contents in put-contents queue item v l,
      unfold filled_item in refl,
      unfold filled_item in refl,
      unfold filled_item in
          ground (
            arith,
            fill_lem (fill old.report 0 report_size report) report_size (50 - report_size) (λ _. 0)
                j,
            fill_lem old.report 0 report_size report j,
          ),
    )

-- A report of a wrong size, or one that meets a full queue, is refused and changes nothing.
pub enqueue_outcome :
    (queue : ReplyQueue) (hid_cid report_size : ℕ) (report : Option Buffer)
    → let (result, queue') = enqueue queue hid_cid report report_size in
      ((result ≡ ok)
        ↔ ((is_null report ≡ false) × (1 ≤ report_size) × (report_size ≤ 50) × (queue.count < 4)))
      × ((result ≡ ok) ⊎ (queue' ≡ queue))
unfolding enqueue
enqueue_outcome queue hid_cid report_size none = ground arith
enqueue_outcome queue hid_cid report_size (some report) = ground arith

drop_head-contents :
    (queue : ReplyQueue) (n : ℕ)
    → IsValid queue
    → queue.count ≡ suc n
    → contents queue ≡ queue.items queue.head ∷ contents (drop_head queue)
unfolding contents drop_head
drop_head-contents queue n v e =
    let cleared = (drop_head queue).items in
    let left : n ≡ queue.count - 1 = omega arith in
    let first : queue.items (queue.head % 4) ≡ queue.items queue.head =
      ap queue.items (omega arith) in
    let rest =
      sym (
        items_from-put queue.items (queue.head + 1) n queue.head
          (clear_item (queue.items queue.head)) (λ i p q. omega arith))
      ∙ items_from_round cleared (queue.head + 1) ((queue.head + 1) % 4) n (omega arith)
      ∙ ap (items_from cleared ((queue.head + 1) % 4)) left in
    ap (items_from queue.items queue.head) e ∙ (unfold items_from in λ i. first i ∷ rest i)

-- What a sending does: an empty queue is left alone; else the callback gets the item at the head,
-- and the item leaves the queue exactly when the callback returns 0.
pub send_next_fifo :
    (queue : ReplyQueue) (send : SendCallback)
    → IsValid queue
    → let (result, queue') = send_next queue (some send) in
      let item = queue.items queue.head in
      let code = send item.hid_cid item.report item.report_size in
      IsValid queue'
      × (((result ≡ empty) × (contents queue ≡ []) × (queue' ≡ queue))
          ⊎ ((result ≡ ok) × (code ≡ pos 0) × (contents queue ≡ item ∷ contents queue'))
          ⊎ ((result ≡ send_failed) × (code ≢ pos 0) × (queue' ≡ queue) × (contents queue ≢ [])))
send_next_fifo queue send v = by_count queue.count refl
  where
    by_count :
        (n : ℕ)
        → queue.count ≡ n
        → let (result, queue') = send_next queue (some send) in
          let item = queue.items queue.head in
          let code = send item.hid_cid item.report item.report_size in
          IsValid queue'
          × (((result ≡ empty) × (contents queue ≡ []) × (queue' ≡ queue))
              ⊎ ((result ≡ ok) × (code ≡ pos 0) × (contents queue ≡ item ∷ contents queue'))
              ⊎ ((result ≡ send_failed)
                  × (code ≢ pos 0)
                  × (queue' ≡ queue)
                  × (contents queue ≢ [])))
    by_count zero e = unfold send_next contents items_from in ground arith
    by_count (suc n) e =
        let d = drop_head-contents queue n v e in unfold send_next in ground (arith, d)
