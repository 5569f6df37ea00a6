-- ===== src/Mt/TrippleBuffer/Tests.antt =====
-- A run in which the producer commits between the consumer's load and its exchange.
use mart_common.Prelude.{ℕ, ◌<◌, ◌≡◌, ◌≢◌, refl, true, some, ltb, get_elem?, ℕ_discrete}
use mart_common.Mt.TrippleBuffer.{get_read_buffer, write, has_new_data, fetch_update}
use mart_common.Mt.TrippleBuffer.System.{
  System, start, committed, exchanged, Reach, writes, commits, sees, here, next,
}
use mart_common.Mt.TrippleBuffer.Safety.{Reach-disjoint, fetch_update-latest}

abbrev one_commit : System ℕ
one_commit = let s = start 7 in committed (record s { buffer = write s.buffer 8 })

one_commit-Reach : Reach 7 one_commit
one_commit-Reach = next (next here (writes (start 7) 8)) (commits _)

abbrev overtaken : System ℕ
overtaken =
    let s = record one_commit { fetching = true } in
    committed (record s { buffer = write s.buffer 9 })

overtaken-Reach : Reach 7 overtaken
unfolding start committed has_new_data
overtaken-Reach =
    next (next (next one_commit-Reach (sees one_commit refl refl)) (writes _ 9)) (commits _)

runs_latest : get_read_buffer (exchanged overtaken).buffer ≡ 9
unfolding start committed exchanged get_read_buffer write ℕ_discrete
runs_latest = refl

Reach-disjoint_example :
    (overtaken.buffer.read_idx.idx ≢ overtaken.buffer.write_idx.idx)
    × (overtaken.buffer.read_idx.idx < 3)
    × (overtaken.buffer.write_idx.idx < 3)
    × ((b : ℕ) → get_read_buffer (write overtaken.buffer b) ≡ get_read_buffer overtaken.buffer)
Reach-disjoint_example = Reach-disjoint overtaken-Reach

fetch_update-latest_example :
    ((fetch_update one_commit.buffer).1 ≡ ltb 0 one_commit.unseen)
    × (0 < one_commit.unseen
        → get_elem? one_commit.log 0 ≡ some (get_read_buffer (fetch_update one_commit.buffer).0))
    × (one_commit.unseen ≡ 0 → (fetch_update one_commit.buffer).0 ≡ one_commit.buffer)
fetch_update-latest_example = fetch_update-latest one_commit-Reach
