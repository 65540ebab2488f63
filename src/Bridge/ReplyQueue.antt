-- ===== src/Bridge/ReplyQueue.antt =====
-- The queue of subcommand replies: swbt/btstack_bridge/subcommand_reply_queue.h and
-- subcommand_reply_queue.c. The queue is updated in place and is a value; the guards against a NULL
-- queue, which no caller passes, are left out. The send callback is a function of what it is
-- called with; `none` stands for NULL.
pub mod Fifo
use swbt_daemon.Common.{ℕ, ◌+◌, ◌-◌, ◌%◌, ◌||◌, Option, none, some, ltb, leb, ◌==◌, if◌then◌else◌}
use swbt_daemon.Common.Buffer.{Buffer, fill}
use swbt_daemon.Common.Int.{ℤ, pos, negsuc}
use swbt_daemon.Switch.Reply.{reply_report_size}

abbrev pub queue_capacity : ℕ
queue_capacity = 4

-- `swbt_btstack_subcommand_reply_queue_result_t`.
pub data QueueResult : Type 0 where
  ok empty invalid_argument full invalid_report_size send_failed : QueueResult

-- `swbt_btstack_subcommand_reply_send_callback_t`, with its context.
abbrev pub SendCallback : Type 0
SendCallback = ℕ → Buffer → ℕ → ℤ

-- `swbt_btstack_subcommand_reply_queue_item_t`; `report` is an array of 50 bytes.
pub record QueueItem : Type 0 where
  pub hid_cid : ℕ
  pub report : Buffer
  pub report_size : ℕ

-- `swbt_btstack_subcommand_reply_queue_t`; `items` is an array of 4.
pub record ReplyQueue : Type 0 where
  pub items : ℕ → QueueItem
  pub head : ℕ
  pub count : ℕ

unfoldable pub clear_item : QueueItem → QueueItem
clear_item item = record {
  hid_cid = 0;
  report = fill item.report 0 reply_report_size (λ _. 0);
  report_size = 0;
}

unfoldable pub enqueue_index : ReplyQueue → ℕ
enqueue_index queue = (queue.head + queue.count) % queue_capacity

-- queue->items[i] = item
abbrev pub put : (ℕ → QueueItem) → ℕ → QueueItem → ℕ → QueueItem
put items i item j = if j == i then item else items j

-- `swbt_btstack_subcommand_reply_queue_init`; the loop clears the four items.
unfoldable pub init : ReplyQueue → ReplyQueue
init queue = record {
  items = λ j. if ltb j queue_capacity then clear_item (queue.items j) else queue.items j;
  head = 0;
  count = 0;
}

-- `swbt_btstack_subcommand_reply_queue_size`.
unfoldable pub size : Option ReplyQueue → ℕ
size none = 0
size (some queue) = queue.count

-- What the two loops of an enqueueing write to the item.
unfoldable pub filled_item : QueueItem → ℕ → Buffer → ℕ → QueueItem
filled_item item hid_cid report report_size = record {
  hid_cid = hid_cid;
  report =
      fill (fill item.report 0 report_size report) report_size (reply_report_size - report_size)
        (λ _. 0);
  report_size = report_size;
}

-- `swbt_btstack_subcommand_reply_queue_enqueue`.
unfoldable pub enqueue : ReplyQueue → ℕ → Option Buffer → ℕ → QueueResult × ReplyQueue
unfolding enqueue_index
enqueue queue hid_cid none report_size = (invalid_argument, queue)
enqueue queue hid_cid (some report) report_size =
    if report_size == 0 || ltb reply_report_size report_size
    then (invalid_report_size, queue)
    else if leb queue_capacity queue.count
    then (full, queue)
    else (let slot = enqueue_index queue in
        let item = filled_item (queue.items slot) hid_cid report report_size in
        (ok, record queue { items = put queue.items slot item; count = queue.count + 1 }))

-- The queue after the item at its head was sent.
unfoldable pub drop_head : ReplyQueue → ReplyQueue
drop_head queue = record {
  items = put queue.items queue.head (clear_item (queue.items queue.head));
  head = (queue.head + 1) % queue_capacity;
  count = queue.count - 1;
}

-- `swbt_btstack_subcommand_reply_queue_send_next`.
unfoldable pub send_next : ReplyQueue → Option SendCallback → QueueResult × ReplyQueue
unfolding drop_head
send_next queue none = (invalid_argument, queue)
send_next queue (some send_callback) =
    if queue.count == 0
    then (empty, queue)
    else (let item = queue.items queue.head in
        elim (send_callback item.hid_cid item.report item.report_size) [
          | pos n ↦ if n == 0 then (ok, drop_head queue) else (send_failed, queue)
          | negsuc n ↦ (send_failed, queue)
        ])
