-- ===== src/Hub.antt =====
-- notification-service/internal/hub/hub.go: the channels of the open SSE streams of each user.
-- A channel is a number, given out in order by `make`; `queues` holds what waits in each channel.
-- `subs` is the Go map: a missing key reads as the empty slice. The mutex makes `subscribe`,
-- `unsubscribe` and the copy in `broadcast` single steps; the sends after the copy are steps of
-- their own (Hub/Isolation.antt).
pub mod Channels
pub mod Operations
pub mod Isolation
use Prim.Native.String.{String}
use meeting_room_booking_sys.Prelude.{
  ℕ, suc, ◌-◌, Bool, List, [], ◌∷◌, ◌++◌, Option, none, some, length, take, get_or, set, leb, ltb,
  ◌==◌, if◌then◌else◌,
}

-- model.Notification, with its identifiers as numbers.
pub data NotificationType : Type 0 where
  booking_created booking_cancelled : NotificationType

pub record Notification : Type 0 where
  pub id : ℕ
  pub user_id : ℕ
  pub type : NotificationType
  pub booking_id : ℕ
  pub room_name : String
  pub slot_start : ℕ
  pub slot_end : ℕ
  pub is_read : Bool
  pub created_at : ℕ

abbrev pub max_subs_per_user : ℕ
max_subs_per_user = 10

-- The capacity of `make(chan model.Notification, 16)`.
abbrev pub queue_size : ℕ
queue_size = 16

pub record Hub : Type 0 where
  pub subs : ℕ → Option (List ℕ)
  pub queues : ℕ → List Notification
  pub next_channel : ℕ

-- `h.subs[userID]`
abbrev pub channels_of : Option (List ℕ) → List ℕ
channels_of none = []
channels_of (some chans) = chans

abbrev pub assign {ℓ} : {A : Type ℓ} → (ℕ → A) → ℕ → A → ℕ → A
assign f k v j = if j == k then v else f j

unfoldable pub new_hub : Hub
new_hub = record { subs = λ u. none; queues = λ c. []; next_channel = 0 }

-- The new state, and the channel or the refusal.
unfoldable pub subscribe : Hub → ℕ → Hub × Option ℕ
subscribe h user =
    let chans = channels_of (h.subs user) in
    let ch = h.next_channel in
    if leb max_subs_per_user (length chans) then (h, none) else (
      record h {
        subs = assign h.subs user (some (chans ++ ch ∷ []));
        queues = assign h.queues ch [];
        next_channel = suc ch;
      },
      some ch,
    )

-- The loop over `chans` that stops at the first channel equal to `ch`.
unfoldable pub index_from : ℕ → ℕ → List ℕ → Option ℕ
index_from i ch [] = none
index_from i ch (c ∷ chans) =
    let rest = index_from (suc i) ch chans in if c == ch then some i else rest

-- `chans[i] = chans[last]; chans[:last]`
unfoldable pub swap_remove : List ℕ → ℕ → List ℕ
swap_remove chans i = let last = length chans - 1 in take last (set chans i (get_or chans last 0))

unfoldable pub without : ℕ → List ℕ → List ℕ
unfolding index_from swap_remove
without ch chans = elim (index_from 0 ch chans) [ none ↦ chans | some i ↦ swap_remove chans i ]

-- An empty slice is deleted from the map.
abbrev pub entry : List ℕ → Option (List ℕ)
entry [] = none
entry (c ∷ chans) = some (c ∷ chans)

-- The function that `Subscribe` returns.
unfoldable pub unsubscribe : Hub → ℕ → ℕ → Hub
unsubscribe h user ch = record h {
  subs = assign h.subs user (entry (without ch (channels_of (h.subs user))));
}

-- `select { case ch <- n: default: }`: a full channel drops the notification.
unfoldable pub offer : Hub → ℕ → Notification → Hub
offer h ch n =
    if ltb (length (h.queues ch)) queue_size
    then record h { queues = assign h.queues ch (h.queues ch ++ n ∷ []) }
    else h

unfoldable pub offer_all : Hub → List ℕ → Notification → Hub
offer_all h [] n = h
offer_all h (ch ∷ chans) n = offer_all (offer h ch n) chans n

-- The copy of the slice, then a send to each channel of the copy.
unfoldable pub broadcast : Hub → ℕ → Notification → Hub
unfolding offer_all
broadcast h user n = offer_all h (channels_of (h.subs user)) n
