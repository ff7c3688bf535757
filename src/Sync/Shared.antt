-- ===== src/Sync/Shared.antt =====
-- src/sync.rs: the state that the two halves of a channel share.
use postage_rs.Prelude.{refl}
use postage_rs.Queues.{SegQueue}
use postage_rs.Concurrent.{Ref}
use postage_rs.Sync.RefCount
use postage_rs.Sync.RefCount.{RefCount}
use postage_rs.Sync.Notifier
use postage_rs.Sync.Notifier.{Notifier}

-- `Q` is the queue of wakers, `W` a waker, `E` what the channel adds.
pub record Shared (Q W E : Type 0) : Type 0 where
  pub sender_notify : Notifier Q W
  pub sender_count : RefCount
  pub receiver_notify : Notifier Q W
  pub receiver_count : RefCount
  pub extension : E

module _ {Q W E : Type 0} where
  unfoldable pub new : ⦃sq : SegQueue Q W⦄ → E → Shared Q W E
  unfolding Notifier.new
  new ⦃sq⦄ x = record {
    sender_notify = Notifier.new;
    sender_count = RefCount.new 1;
    receiver_notify = Notifier.new;
    receiver_count = RefCount.new 1;
    extension = x;
  }

  abbrev pub sender_notify_field : Ref (Shared Q W E) (Notifier Q W)
  sender_notify_field = record {
    get = λ s. s.sender_notify;
    put = λ x s. record s { sender_notify = x };
    get-put = λ x s. refl;
    put-get = λ s. refl;
    put-put = λ x y s. refl;
  }

  abbrev pub sender_count_field : Ref (Shared Q W E) RefCount
  sender_count_field = record {
    get = λ s. s.sender_count;
    put = λ x s. record s { sender_count = x };
    get-put = λ x s. refl;
    put-get = λ s. refl;
    put-put = λ x y s. refl;
  }

  abbrev pub receiver_notify_field : Ref (Shared Q W E) (Notifier Q W)
  receiver_notify_field = record {
    get = λ s. s.receiver_notify;
    put = λ x s. record s { receiver_notify = x };
    get-put = λ x s. refl;
    put-get = λ s. refl;
    put-put = λ x y s. refl;
  }

  abbrev pub receiver_count_field : Ref (Shared Q W E) RefCount
  receiver_count_field = record {
    get = λ s. s.receiver_count;
    put = λ x s. record s { receiver_count = x };
    get-put = λ x s. refl;
    put-get = λ s. refl;
    put-put = λ x y s. refl;
  }

  abbrev pub extension_field : Ref (Shared Q W E) E
  extension_field = record {
    get = λ s. s.extension;
    put = λ x s. record s { extension = x };
    get-put = λ x s. refl;
    put-get = λ s. refl;
    put-put = λ x y s. refl;
  }
