-- ===== src/Hub/Isolation.antt =====
-- All interleavings of the hub's users. The copy of a broadcast and each of its sends are steps of
-- their own, so subscriptions, other broadcasts and reads of the streams fall between them.
pub mod Invariance
use meeting_room_booking_sys.Prelude.{
  ℕ, suc, ◌<◌, ◌≤◌, ◌≡◌, refl, List, [], ◌∷◌, ◌++◌, Option, none, some, map, arith, length,
  length-append, All, All-append, All-imp, All-split, leb, ltb, ◌==◌, Bool-cases, ==_iff, subst,
  sym, inl, inr,
}
use meeting_room_booking_sys.Hub.{
  Hub, Notification, new_hub, subscribe, unsubscribe, without, offer, max_subs_per_user, queue_size,
  assign,
}
use meeting_room_booking_sys.Hub.Channels.{
  count, count-append, count-without, without-All, length-without,
}
use meeting_room_booking_sys.Hub.Operations.{
  channels, channels-unsubscribe, subs-offer, next_channel-offer, queues-offer, offered,
}

-- `sends` holds the sends that broadcasts have yet to make; `owner` is the user that a channel was
-- made for, which the code keeps in the closure that unsubscribes.
pub record System : Type 0 where
  pub hub : Hub
  pub sends : List (ℕ × Notification)
  pub owner : ℕ → ℕ

pub start : System
start = record { hub = new_hub; sends = []; owner = λ c. 0 }

abbrev pub record_owner : Option ℕ → ℕ → (ℕ → ℕ) → ℕ → ℕ
record_owner none user owner = owner
record_owner (some ch) user owner = assign owner ch user

abbrev pub read_queue : Hub → ℕ → List Notification → Hub
read_queue h ch q = record h { queues = assign h.queues ch q }

-- Every broadcast of the service goes to the user that the notification names.
pub data Step (s : System) : System → Type 0 where
  subscribes :
      (user : ℕ)
      → Step s (record s {
        hub = (subscribe s.hub user).0;
        owner = record_owner (subscribe s.hub user).1 user s.owner;
      })
  unsubscribes : (ch : ℕ) → Step s (record s { hub = unsubscribe s.hub (s.owner ch) ch })
  copies :
      (n : Notification)
      → Step s (record s { sends = s.sends ++ map (λ ch. (ch, n)) (channels s.hub n.user_id) })
  sends_one :
      (before after : List (ℕ × Notification)) (ch : ℕ) (n : Notification)
      → s.sends ≡ before ++ (ch, n) ∷ after
      → Step s (record s { hub = offer s.hub ch n; sends = before ++ after })
  reads :
      (ch : ℕ) (n : Notification) (rest : List Notification)
      → s.hub.queues ch ≡ n ∷ rest
      → Step s (record s { hub = read_queue s.hub ch rest })

-- What an empty hub becomes.
pub data Reached : System → Type 0 where
  initially : Reached start
  stepped : {before now : System} → Step before now → Reached before → Reached now

abbrev pub IsOwnedBy : (ℕ → ℕ) → ℕ → ℕ → ℕ → Type 0
IsOwnedBy owner bound user ch = (owner ch ≡ user) × (ch < bound)

-- The limits of the two constants hold, the channels of a user are distinct and made for that user,
-- and whatever waits in a channel, or is about to be sent to it, is addressed to its owner.
pub record Inv (s : System) : Type 0 where
  pub few : (user : ℕ) → length (channels s.hub user) ≤ max_subs_per_user
  pub distinct : (user c : ℕ) → count c (channels s.hub user) ≤ 1
  pub owned : (user : ℕ) → All (IsOwnedBy s.owner s.hub.next_channel user) (channels s.hub user)
  pub short : (c : ℕ) → length (s.hub.queues c) ≤ queue_size
  pub queued : (c : ℕ) → All (λ n. s.owner c ≡ n.user_id) (s.hub.queues c)
  pub sending : All (λ p. IsOwnedBy s.owner s.hub.next_channel p.1.user_id p.0) s.sends
