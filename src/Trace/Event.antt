-- ===== src/Trace/Event.antt =====
-- crates/rusty_rtos_core/src/trace.rs: the events that the kernel reports and what they are called. An
-- event's fields stand in the order of the source, handles of every kind as `Handle`.
use Prim.Native.String.{String}
use rusty_rtos_core.Prelude.{ℕ, Bool, true, false, Option, none, some}
use rusty_rtos_core.Error.{ℤ}
use rusty_rtos_core.Handle.{Handle}
use rusty_rtos_core.Priority.{Priority}

pub data Event : Type 0 where
  starting_scheduler : Event
  task_create : Handle → String → Priority → Event
  task_create_failed : Event
  task_delete : Handle → String → Event
  task_switched_in : Handle → String → Event
  task_switched_out : Handle → String → Event
  task_delay : Handle → String → ℕ → Event
  task_delay_until : Handle → String → ℕ → Event
  task_suspend : Handle → String → Event
  task_resume : Handle → String → Event
  task_resume_from_isr : Handle → String → Event
  task_priority_set : Handle → String → Priority → Event
  task_priority_inherit : Handle → String → Priority → Event
  task_priority_disinherit : Handle → String → Priority → Event
  task_increment_tick : ℕ → Event
  moved_task_to_ready_state : Handle → String → Event
  moved_task_to_delayed_list : Handle → String → Event
  moved_task_to_overflow_delayed_list : Handle → String → Event
  task_notify : Handle → String → ℕ → Event
  task_notify_wait : Handle → String → ℕ → Event
  task_notify_wait_block : Handle → String → ℕ → Event
  task_notify_take : Handle → String → ℕ → Event
  task_notify_take_block : Handle → String → ℕ → Event
  queue_create : Handle → String → ℕ → Event
  queue_send : Handle → String → Event
  queue_send_failed : Handle → String → Event
  queue_send_from_isr : Handle → String → Event
  queue_receive : Handle → String → Event
  queue_receive_failed : Handle → String → Event
  queue_receive_from_isr : Handle → String → Event
  queue_peek : Handle → String → Event
  blocking_on_queue_send : Handle → String → Event
  blocking_on_queue_receive : Handle → String → Event
  blocking_on_queue_peek : Handle → String → Event
  timer_create : Handle → String → Event
  timer_command_send : Handle → String → ℤ → ℕ → Event
  timer_expired : Handle → String → Event
  event_group_create : Handle → Event
  event_group_set_bits : Handle → ℕ → Event
  event_group_wait_bits_block : Handle → ℕ → Event
  event_group_wait_bits_end : Handle → ℕ → Bool → Event
  stream_buffer_create : Handle → Bool → Event
  stream_buffer_send : Handle → ℕ → Event
  stream_buffer_receive : Handle → ℕ → Event
  low_power_idle_begin : Event
  low_power_idle_end : Event

unfoldable pub name : Event → String
name Event.starting_scheduler = "STARTING_SCHEDULER"
name (Event.task_create _ _ _) = "TASK_CREATE"
name Event.task_create_failed = "TASK_CREATE_FAILED"
name (Event.task_delete _ _) = "TASK_DELETE"
name (Event.task_switched_in _ _) = "TASK_SWITCHED_IN"
name (Event.task_switched_out _ _) = "TASK_SWITCHED_OUT"
name (Event.task_delay _ _ _) = "TASK_DELAY"
name (Event.task_delay_until _ _ _) = "TASK_DELAY_UNTIL"
name (Event.task_suspend _ _) = "TASK_SUSPEND"
name (Event.task_resume _ _) = "TASK_RESUME"
name (Event.task_resume_from_isr _ _) = "TASK_RESUME_FROM_ISR"
name (Event.task_priority_set _ _ _) = "TASK_PRIORITY_SET"
name (Event.task_priority_inherit _ _ _) = "TASK_PRIORITY_INHERIT"
name (Event.task_priority_disinherit _ _ _) = "TASK_PRIORITY_DISINHERIT"
name (Event.task_increment_tick _) = "TASK_INCREMENT_TICK"
name (Event.moved_task_to_ready_state _ _) = "MOVED_TASK_TO_READY_STATE"
name (Event.moved_task_to_delayed_list _ _) = "MOVED_TASK_TO_DELAYED_LIST"
name (Event.moved_task_to_overflow_delayed_list _ _) = "MOVED_TASK_TO_OVERFLOW_DELAYED_LIST"
name (Event.task_notify _ _ _) = "TASK_NOTIFY"
name (Event.task_notify_wait _ _ _) = "TASK_NOTIFY_WAIT"
name (Event.task_notify_wait_block _ _ _) = "TASK_NOTIFY_WAIT_BLOCK"
name (Event.task_notify_take _ _ _) = "TASK_NOTIFY_TAKE"
name (Event.task_notify_take_block _ _ _) = "TASK_NOTIFY_TAKE_BLOCK"
name (Event.queue_create _ _ _) = "QUEUE_CREATE"
name (Event.queue_send _ _) = "QUEUE_SEND"
name (Event.queue_send_failed _ _) = "QUEUE_SEND_FAILED"
name (Event.queue_send_from_isr _ _) = "QUEUE_SEND_FROM_ISR"
name (Event.queue_receive _ _) = "QUEUE_RECEIVE"
name (Event.queue_receive_failed _ _) = "QUEUE_RECEIVE_FAILED"
name (Event.queue_receive_from_isr _ _) = "QUEUE_RECEIVE_FROM_ISR"
name (Event.queue_peek _ _) = "QUEUE_PEEK"
name (Event.blocking_on_queue_send _ _) = "BLOCKING_ON_QUEUE_SEND"
name (Event.blocking_on_queue_receive _ _) = "BLOCKING_ON_QUEUE_RECEIVE"
name (Event.blocking_on_queue_peek _ _) = "BLOCKING_ON_QUEUE_PEEK"
name (Event.timer_create _ _) = "TIMER_CREATE"
name (Event.timer_command_send _ _ _ _) = "TIMER_COMMAND_SEND"
name (Event.timer_expired _ _) = "TIMER_EXPIRED"
name (Event.event_group_create _) = "EVENT_GROUP_CREATE"
name (Event.event_group_set_bits _ _) = "EVENT_GROUP_SET_BITS"
name (Event.event_group_wait_bits_block _ _) = "EVENT_GROUP_WAIT_BITS_BLOCK"
name (Event.event_group_wait_bits_end _ _ _) = "EVENT_GROUP_WAIT_BITS_END"
name (Event.stream_buffer_create _ _) = "STREAM_BUFFER_CREATE"
name (Event.stream_buffer_send _ _) = "STREAM_BUFFER_SEND"
name (Event.stream_buffer_receive _ _) = "STREAM_BUFFER_RECEIVE"
name Event.low_power_idle_begin = "LOW_POWER_IDLE_BEGIN"
name Event.low_power_idle_end = "LOW_POWER_IDLE_END"

unfoldable pub subject : Event → Option String
subject (Event.task_create _ text _) = some text
subject (Event.task_delete _ text) = some text
subject (Event.task_switched_in _ text) = some text
subject (Event.task_switched_out _ text) = some text
subject (Event.task_delay _ text _) = some text
subject (Event.task_delay_until _ text _) = some text
subject (Event.task_suspend _ text) = some text
subject (Event.task_resume _ text) = some text
subject (Event.task_resume_from_isr _ text) = some text
subject (Event.task_priority_set _ text _) = some text
subject (Event.task_priority_inherit _ text _) = some text
subject (Event.task_priority_disinherit _ text _) = some text
subject (Event.moved_task_to_ready_state _ text) = some text
subject (Event.moved_task_to_delayed_list _ text) = some text
subject (Event.moved_task_to_overflow_delayed_list _ text) = some text
subject (Event.task_notify _ text _) = some text
subject (Event.task_notify_wait _ text _) = some text
subject (Event.task_notify_wait_block _ text _) = some text
subject (Event.task_notify_take _ text _) = some text
subject (Event.task_notify_take_block _ text _) = some text
subject (Event.queue_create _ text _) = some text
subject (Event.queue_send _ text) = some text
subject (Event.queue_send_failed _ text) = some text
subject (Event.queue_send_from_isr _ text) = some text
subject (Event.queue_receive _ text) = some text
subject (Event.queue_receive_failed _ text) = some text
subject (Event.queue_receive_from_isr _ text) = some text
subject (Event.queue_peek _ text) = some text
subject (Event.blocking_on_queue_send _ text) = some text
subject (Event.blocking_on_queue_receive _ text) = some text
subject (Event.blocking_on_queue_peek _ text) = some text
subject (Event.timer_create _ text) = some text
subject (Event.timer_command_send _ text _ _) = some text
subject (Event.timer_expired _ text) = some text
subject _ = none

unfoldable pub is_suppressible : Event → Bool
is_suppressible (Event.task_increment_tick _) = true
is_suppressible Event.low_power_idle_begin = true
is_suppressible Event.low_power_idle_end = true
is_suppressible _ = false
