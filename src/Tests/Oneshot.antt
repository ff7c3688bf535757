-- ===== src/Tests/Oneshot.antt =====
-- The oneshot channel on concrete data.
use postage_rs.Prelude.{ℕ, ◌≡◌, refl, some, List, []}
use postage_rs.Context.{empty}
use postage_rs.Stream.{PollRecv}
use postage_rs.Sink.{PollSend}
use postage_rs.Sync.Transfer.{Transfer}
use postage_rs.Channels.Oneshot.{channel, poll_send, poll_recv}
use postage_rs.Channels.Oneshot.Single.{oneshot_delivers_once}
use postage_rs.Tests.Queues.{wakers}

abbrev fresh : Transfer (List ℕ) ℕ ℕ
unfolding channel
fresh = channel

oneshot_delivers_once_example :
    let a = poll_send empty 3 [] fresh in
    let b = poll_recv empty [] a.1 in
    (a.0 ≡ PollSend.ready)
    × (b.0 ≡ some (some (PollRecv.ready 3)))
    × ((poll_recv empty [] b.1).0 ≡ some (some PollRecv.closed))
    × ((poll_send empty 4 [] b.1).0 ≡ PollSend.rejected 4)
unfolding fresh
oneshot_delivers_once_example = oneshot_delivers_once empty 3 4 fresh refl refl
