-- ===== src/Channels/Broadcast/Shows.antt =====
-- When a broadcast channel shows a log.
use postage_rs.Prelude.{
  ℕ, zero, suc, ◌+◌, ◌<◌, ◌≡◌, refl, sym, ap, ◌∙◌, some, none, List, [], ◌∷◌, ◌++◌, map, arith,
  length, get_elem?, set, remove_at,
}
use postage_rs.Concurrent.Atomic.{usize_mod}
use postage_rs.Sync.MpmcCircularBuffer.{BufferReader}
use postage_rs.Sync.MpmcCircularBuffer.Invariant.{IsValid}
use postage_rs.Channels.Broadcast.Log.{BroadcastLog, Reply}
use postage_rs.Channels.Broadcast.Run.{System}

abbrev pub positions : List BufferReader → List ℕ
positions rs = map (λ r. r.index) rs

pub get_elem?-positions :
    (rs : List BufferReader) (i : ℕ) (r : BufferReader)
    → get_elem? rs i ≡ some r
    → get_elem? (positions rs) i ≡ some r.index
get_elem?-positions [] i r e = cc
get_elem?-positions (q ∷ rs) zero r e = ground (arith, e)
get_elem?-positions (q ∷ rs) (suc i) r e = get_elem?-positions rs i r e

pub get_elem?-positions_none :
    (rs : List BufferReader) (i : ℕ) → get_elem? rs i ≡ none → get_elem? (positions rs) i ≡ none
get_elem?-positions_none [] i e = refl
get_elem?-positions_none (q ∷ rs) zero e = cc
get_elem?-positions_none (q ∷ rs) (suc i) e = get_elem?-positions_none rs i e

pub positions-set :
    (rs : List BufferReader) (i : ℕ) (r : BufferReader)
    → positions (set rs i r) ≡ set (positions rs) i r.index
positions-set [] i r = refl
positions-set (q ∷ rs) zero r = refl
positions-set (q ∷ rs) (suc i) r = ap (λ ps. q.index ∷ ps) (positions-set rs i r)

pub positions-remove_at :
    (rs : List BufferReader) (i : ℕ) → positions (remove_at rs i) ≡ remove_at (positions rs) i
positions-remove_at [] i = refl
positions-remove_at (q ∷ rs) zero = refl
positions-remove_at (q ∷ rs) (suc i) = ap (λ ps. q.index ∷ ps) (positions-remove_at rs i)

pub positions-append :
    (rs : List BufferReader) (r : BufferReader)
    → positions (rs ++ (r ∷ [])) ≡ positions rs ++ (r.index ∷ [])
positions-append [] r = refl
positions-append (q ∷ rs) r = ap (λ ps. q.index ∷ ps) (positions-append rs r)

module _ {Q W T : Type 0} where
  -- The channel shows the log.
  pub record Shows (y : System Q W T) (l : BroadcastLog T) : Type 0 where
    pub valid : IsValid y.channel.extension l.items l.positions
    pub capacity : y.channel.extension.len ≡ l.capacity
    pub readers : positions y.readers ≡ l.positions
    pub senders : y.channel.sender_count.count ≡ l.senders
    pub receivers : y.channel.receiver_count.count ≡ length l.positions

module _ {T : Type 0} where
  -- Room for so many calls more, below the width of `usize`.
  abbrev pub Room : ℕ → BroadcastLog T → Type 0
  Room n l = length l.items + length l.positions + n + 2 < usize_mod

module _ {Q W T : Type 0} where
  -- A step that the log makes too.
  abbrev pub Follows : Reply T × System Q W T → Reply T × BroadcastLog T → Type 0
  Follows a b = (a.0 ≡ b.0) × Shows a.1 b.1

  pub Follows-eq :
      (a a' : Reply T × System Q W T) (b b' : Reply T × BroadcastLog T)
      → a ≡ a'
      → b ≡ b'
      → Follows a' b'
      → Follows a b
  Follows-eq a a' b b' e e' h = rw (e, e') h

module _ {Q W T : Type 0} (y : System Q W T) (l : BroadcastLog T) (shows : Shows y l) where
  -- The reader of an index is at the log's position of the index.
  pub position_some :
      (i : ℕ) (r : BufferReader)
      → get_elem? y.readers i ≡ some r
      → get_elem? l.positions i ≡ some r.index
  position_some i r e =
      ap (λ ps. get_elem? ps i) (sym shows.readers) ∙ get_elem?-positions y.readers i r e

  pub position_none : (i : ℕ) → get_elem? y.readers i ≡ none → get_elem? l.positions i ≡ none
  position_none i e =
      ap (λ ps. get_elem? ps i) (sym shows.readers) ∙ get_elem?-positions_none y.readers i e
