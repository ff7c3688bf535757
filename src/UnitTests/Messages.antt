-- ===== src/UnitTests/Messages.antt =====
-- src/test/test_messages.rs: the messages of the tests, and what checks their order.
use mathlib.Core.Option
use Prim.Native.Nat.{◌/◌}
use postage_rs.Prelude.{
  ℕ, zero, suc, ◌+◌, ◌≡◌, ◌^◌, ◌<◌, ◌↔◌, refl, arith, Bool, true, false, Option, none, some, List,
  [], ◌∷◌, length, ltb, eqb, if◌then◌else◌, get_elem?, set, map,
}
use postage_rs.Concurrent.Atomic.{usize_mod}

record Message : Type 0 where
  sender : ℕ
  index : ℕ

abbrev default : Message
default = record { sender = 0; index = 0 }

abbrev channel_test_iterations : ℕ
channel_test_iterations = 2000

abbrev channel_test_senders : ℕ
channel_test_senders = 10

-- An iterator of indices is the list of what it has left.
record MessageIter : Type 0 where
  sender : ℕ
  iter : List ℕ

unfoldable next_from : ℕ → List ℕ → Option Message × MessageIter
next_from s [] = (none, record { sender = s; iter = [] })
next_from s (i ∷ is) = (some (record { sender = s; index = i }), record { sender = s; iter = is })

unfoldable next : MessageIter → Option Message × MessageIter
unfolding next_from
next m = next_from m.sender m.iter

-- The range `from..from + n`.
unfoldable range : ℕ → ℕ → List ℕ
range from zero = []
range from (suc n) = from ∷ range (suc from) n

unfoldable new_iter : ℕ → MessageIter
unfolding range
new_iter sender = record { sender = sender; iter = range 0 channel_test_iterations }

unfoldable new_multi_sender : ℕ → MessageIter
unfolding range
new_multi_sender sender = record {
  sender = sender;
  iter = range 0 (channel_test_iterations / channel_test_senders);
}

record Channel : Type 0 where
  sender : ℕ
  current_index : ℕ
  allow_skips : Bool

unfoldable new_channel : ℕ → Channel
new_channel sender = record { sender = sender; current_index = 0; allow_skips = false }

unfoldable allow_skips : Channel → Channel
allow_skips c = record c { allow_skips = true }

-- `none` is a panic, also that of an index that overflows.
unfoldable assert_message : Message → Channel → Option Channel
assert_message m c =
    if c.allow_skips
    then if eqb c.sender m.sender
      then if ltb m.index c.current_index then none else some (record c { current_index = m.index })
      else none
    else if eqb c.sender m.sender
    then if eqb c.current_index m.index
      then if ltb (c.current_index + 1) usize_mod
        then some (record c { current_index = c.current_index + 1 })
        else none
      else none
    else none

record Channels : Type 0 where
  channels : List Channel

unfoldable new : ℕ → Channels
unfolding new_channel range
new senders = record { channels = map new_channel (range 0 senders) }

unfoldable allow_all_skips : Channels → Channels
unfolding allow_skips
allow_all_skips cs = record { channels = map allow_skips cs.channels }

-- The channel of the message's sender; `none` is a panic, as an index out of range is.
unfoldable assert_on : Message → Channels → Option Channel → Option Channels
unfolding assert_message
assert_on m cs none = none
assert_on m cs (some c) =
    Option.map (λ c1. record { channels = set cs.channels m.sender c1 }) (assert_message m c)

unfoldable assert_from : Message → Channels → Option Channels
unfolding assert_on
assert_from m cs = assert_on m cs (get_elem? cs.channels m.sender)

unfoldable capacity_iter : List ℕ
unfolding range
capacity_iter = map (λ i. 2 ^ i) (range 1 5)

-- The messages that a test receives, one after the other, checked by the channel of their sender.
unfoldable accepts : List Message → Channel → Bool
accepts [] c = true
accepts (m ∷ ms) c = elim (assert_message m c) [ none ↦ false | some c1 ↦ accepts ms c1 ]

-- The messages of a sender from an index on.
unfoldable in_order : ℕ → ℕ → ℕ → List Message
in_order sender from zero = []
in_order sender from (suc n) =
    record { sender = sender; index = from } ∷ in_order sender (suc from) n

module _ (sender : ℕ) where
  abbrev strict : ℕ → Channel
  strict k = record { sender = sender; current_index = k; allow_skips = false }

  accepts-in_order :
      (ms : List Message) (k : ℕ)
      → k + length ms < usize_mod
      → (accepts ms (strict k) ≡ true) ↔ (ms ≡ in_order sender k (length ms))
  unfolding accepts in_order assert_message
  accepts-in_order [] k h = (λ e. refl, λ e. refl)
  accepts-in_order (m ∷ ms) k h = ground (arith, accepts-in_order ms (suc k) (omega (arith, h)))
