-- ===== src/Relay/Counting.antt =====
-- How many rows a poll takes from the pending ones.
use meeting_room_booking_sys.Prelude.{
  any_of_count_zero, count_where_zero, ==_refl, update_where, ℕ, ◌+◌, ◌≤◌, ◌≡◌, refl, ap, arith,
  Bool, not, ◌&&◌, ◌==◌, List, [], ◌∷◌, ◌++◌, select, take, drop, count_where, count_where-append,
  count_where-select, count_where-Perm, take-append-drop, count_where_mono,
  count_where-update_where,
}
use meeting_room_booking_sys.Database.{OutboxRow}
use meeting_room_booking_sys.Database.Sorting.{Order}
use meeting_room_booking_sys.Relay.{
  Message, Store, Poll, is_pending, message_of, fetch_batch_size, mark_sent, is_among, mark,
}

abbrev pub IsKeyed : List OutboxRow → Type 0
IsKeyed rows = (id : ℕ) → count_where (λ o. o.id == id) rows ≤ 1

-- A row of its own list is among it.
pub count_among :
    (p : OutboxRow → Bool) (batch rows : List OutboxRow)
    → ((id : ℕ) → count_where (λ o. o.id == id) rows ≤ count_where (λ o. o.id == id) batch)
    → count_where (λ o. not (is_among batch o) && p o) rows ≡ 0
count_among p batch [] h = refl
count_among p batch (o ∷ rows) h = ground (
  arith,
  h o.id,
  count_where_zero (λ r. r.id == o.id) batch,
  ==_refl o.id,
  count_among p batch rows (λ id. ground (arith, h id)),
)

-- A row with another key is not.
pub count_not_among :
    (p : OutboxRow → Bool) (batch rows : List OutboxRow)
    → ((id : ℕ) → count_where (λ o. o.id == id) batch + count_where (λ o. o.id == id) rows ≤ 1)
    → count_where (λ o. not (is_among batch o) && p o) rows ≡ count_where p rows
count_not_among p batch [] h = refl
count_not_among p batch (o ∷ rows) h =
    let clear = any_of_count_zero (λ r. r.id == o.id) batch (ground (arith, h o.id)) in
    ground (arith, clear, count_not_among p batch rows (λ id. ground (arith, h id)))

-- Marking the batch leaves pending exactly the pending rows that are not in it.
pub count_marked :
    (now : ℕ) (p : OutboxRow → Bool) (batch rows : List OutboxRow)
    → count_where (λ o. is_pending o && p o) (update_where (is_among batch) (mark now) rows)
      ≡ count_where (λ o. is_pending o && (not (is_among batch o) && p o)) rows
count_marked now p batch [] = refl
count_marked now p batch (o ∷ rows) = ground (arith, count_marked now p batch rows)

pub IsKeyed-marked :
    (now : ℕ) (batch rows : List OutboxRow)
    → IsKeyed rows
    → IsKeyed (update_where (is_among batch) (mark now) rows)
IsKeyed-marked now batch rows k id = omega (
  arith,
  k id,
  count_where-update_where (is_among batch) (λ o. o.id == id) (mark now) rows (λ o. refl),
)

-- The pending rows of a poll: its batch, those that wait for the next one, and those that another
-- transaction holds.
module _ (order : Order) (c : Poll) (rows : List OutboxRow) where
  abbrev pub sorted : List OutboxRow
  sorted =
      order.asc OutboxRow (λ o. o.created_at)
        (select (λ o. is_pending o && not (c.is_locked o)) rows)

  abbrev pub batch : List OutboxRow
  batch = take fetch_batch_size sorted

  abbrev others : List OutboxRow
  others = drop fetch_batch_size sorted ++ select (λ o. is_pending o && c.is_locked o) rows

  count_apart :
      (p : OutboxRow → Bool)
      → count_where (λ o. (is_pending o && not (c.is_locked o)) && p o) rows
          + count_where (λ o. (is_pending o && c.is_locked o) && p o) rows
        ≡ count_where (λ o. is_pending o && p o) rows
  count_apart p = apart rows
    where
      apart :
          (rows : List OutboxRow)
          → count_where (λ o. (is_pending o && not (c.is_locked o)) && p o) rows
              + count_where (λ o. (is_pending o && c.is_locked o) && p o) rows
            ≡ count_where (λ o. is_pending o && p o) rows
      apart [] = omega arith
      apart (o ∷ rows) = ground (arith, apart rows)

  count_parts :
      (p : OutboxRow → Bool)
      → count_where p batch + count_where p others ≡ count_where (λ o. is_pending o && p o) rows
  count_parts p = omega (
    arith,
    count_where-append p batch (drop fetch_batch_size sorted),
    ap (count_where p) (take-append-drop fetch_batch_size sorted),
    count_where-append p (drop fetch_batch_size sorted)
        (select (λ o. is_pending o && c.is_locked o) rows),
    count_where-Perm p (
        order.asc-perm OutboxRow (λ o. o.created_at)
          (select (λ o. is_pending o && not (c.is_locked o)) rows)),
    count_where-select (λ o. is_pending o && not (c.is_locked o)) p rows,
    count_where-select (λ o. is_pending o && c.is_locked o) p rows,
    count_apart p,
  )

  parts_keyed :
      IsKeyed rows
      → (id : ℕ) → count_where (λ o. o.id == id) batch + count_where (λ o. o.id == id) others ≤ 1
  parts_keyed k id = omega (
    arith,
    k id,
    count_parts (λ o. o.id == id),
    count_where_mono (λ o. is_pending o && (o.id == id)) (λ o. o.id == id) rows
        (λ o h. ground arith),
  )

  -- Marking the batch takes exactly its rows from those that are pending.
  pub count_sent :
      (p : OutboxRow → Bool)
      → IsKeyed rows
      → count_where p batch + count_where (λ o. is_pending o && p o) (mark_sent c.now batch rows)
        ≡ count_where (λ o. is_pending o && p o) rows
  unfolding mark_sent
  count_sent p k = omega (
    arith,
    count_parts p,
    count_marked c.now p batch rows,
    count_parts (λ o. not (is_among batch o) && p o),
    count_among p batch batch (λ id. omega arith),
    count_not_among p batch others (parts_keyed k),
  )

abbrev pub pending : Store → ℕ
pending s = count_where is_pending s.outbox

-- The messages of a kind that the topic has, with those that pending rows will give.
abbrev pub owed : (Message → Bool) → Store → ℕ
owed q s = count_where q s.topic + count_where (λ o. is_pending o && q (message_of o)) s.outbox
