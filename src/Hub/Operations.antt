-- ===== src/Hub/Operations.antt =====
-- What `Subscribe`, the unsubscribe function and `Broadcast` do to the slices and the queues.
use meeting_room_booking_sys.Prelude.{
  ℕ, ◌<◌, ◌≤◌, ◌≡◌, ◌↔◌, refl, List, [], ◌∷◌, ◌++◌, none, some, arith, length, ltb, ◌==◌, ◌&&◌,
  if◌then◌else◌, ◌∙◌, lt→leb,
}
use meeting_room_booking_sys.Hub.{
  Hub, Notification, channels_of, entry, subscribe, unsubscribe, without, offer, offer_all,
  broadcast, max_subs_per_user, queue_size,
}
use meeting_room_booking_sys.Hub.Channels.{count, count-le-length, length-without, count-without}

abbrev pub channels : Hub → ℕ → List ℕ
channels h user = channels_of (h.subs user)

pub channels_of-entry : (xs : List ℕ) → channels_of (entry xs) ≡ xs
channels_of-entry [] = refl
channels_of-entry (x ∷ xs) = refl

pub channels-subscribe :
    (h : Hub) (user v : ℕ)
    → channels (subscribe h user).0 v ≡ (
        if v == user && ltb (length (channels h user)) max_subs_per_user
        then channels h user ++ h.next_channel ∷ []
        else channels h v)
unfolding subscribe
channels-subscribe h user v = ground arith

pub channels-unsubscribe :
    (h : Hub) (user ch v : ℕ)
    → channels (unsubscribe h user ch) v
      ≡ (if v == user then without ch (channels h user) else channels h v)
unfolding unsubscribe
channels-unsubscribe h user ch v = ground (arith, channels_of-entry (without ch (channels h user)))

-- The stream is refused exactly when the user has `max_subs_per_user` channels, and then nothing
-- changes.
pub subscribe_refused :
    (h : Hub) (user : ℕ)
    → (((subscribe h user).1 ≡ none) ↔ (max_subs_per_user ≤ length (channels h user)))
      × ((subscribe h user).1 ≡ none → (subscribe h user).0 ≡ h)
unfolding subscribe
subscribe_refused h user = ((λ e. ground arith, λ l. ground arith), λ e. ground arith)

pub subs-offer : (h : Hub) (ch : ℕ) (n : Notification) → (offer h ch n).subs ≡ h.subs
unfolding offer
subs-offer h ch n = ground arith

pub next_channel-offer :
    (h : Hub) (ch : ℕ) (n : Notification) → (offer h ch n).next_channel ≡ h.next_channel
unfolding offer
next_channel-offer h ch n = ground arith

-- A send that does not block: the queue grows at its end, unless it is full.
abbrev pub offered : List Notification → Notification → List Notification
offered q n = if ltb (length q) queue_size then q ++ n ∷ [] else q

pub queues-offer :
    (h : Hub) (ch : ℕ) (n : Notification) (c : ℕ)
    → (offer h ch n).queues c ≡ (if c == ch then offered (h.queues ch) n else h.queues c)
unfolding offer
queues-offer h ch n c = ground arith

queues-offer_all_absent :
    (h : Hub) (chans : List ℕ) (n : Notification) (c : ℕ)
    → count c chans ≡ 0
    → (offer_all h chans n).queues c ≡ h.queues c
unfolding offer_all
queues-offer_all_absent h [] n c e = refl
queues-offer_all_absent h (ch ∷ chans) n c e =
    ground (arith, queues-offer_all_absent (offer h ch n) chans n c, queues-offer h ch n c)

queues-offer_all_once :
    (h : Hub) (chans : List ℕ) (n : Notification) (c : ℕ)
    → count c chans ≡ 1
    → (offer_all h chans n).queues c ≡ offered (h.queues c) n
unfolding offer_all
queues-offer_all_once h [] n c e = absurd (omega arith)
queues-offer_all_once h (ch ∷ chans) n c e = ground (
  arith,
  queues-offer_all_absent (offer h ch n) chans n c,
  queues-offer_all_once (offer h ch n) chans n c,
  queues-offer h ch n c,
)

-- `Broadcast` puts the notification once at the end of the queue of each channel of the user that
-- has room, and changes no other queue.
pub queues-broadcast :
    (h : Hub) (user : ℕ) (n : Notification) (c : ℕ)
    → count c (channels h user) ≤ 1
    → (broadcast h user n).queues c
      ≡ (if count c (channels h user) == 0 then h.queues c else offered (h.queues c) n)
unfolding broadcast
queues-broadcast h user n c once = ground (
  arith,
  queues-offer_all_absent h (channels h user) n c,
  queues-offer_all_once h (channels h user) n c,
)

-- After its unsubscribe function ran, a channel that the user had at most once gets nothing from a
-- broadcast to the user: its queue is as before the unsubscribe.
pub broadcast-unsubscribe :
    (h : Hub) (user ch : ℕ) (n : Notification)
    → count ch (channels h user) ≤ 1
    → (broadcast (unsubscribe h user ch) user n).queues ch ≡ h.queues ch
broadcast-unsubscribe h user ch n once =
    queues-broadcast (unsubscribe h user ch) user n ch (omega (arith, gone))
    ∙ rw gone (unfold unsubscribe in refl)
  where
    gone : count ch (channels (unsubscribe h user ch) user) ≡ 0
    gone =
        rw (channels-unsubscribe h user ch user)
          (ground (arith, count-without ch ch (channels h user)))

-- The place that a stream gives back can be taken again: a user within the limit, after the
-- unsubscribe of a channel that the user has, is given a new channel.
pub subscribe-unsubscribe :
    (h : Hub) (user ch : ℕ)
    → length (channels h user) ≤ max_subs_per_user
    → count ch (channels h user) ≡ 1
    → (subscribe (unsubscribe h user ch) user).1 ≡ some h.next_channel
unfolding subscribe
subscribe-unsubscribe h user ch full listed =
    rw (lt→leb max_subs_per_user (length (channels (unsubscribe h user ch) user)) shorter)
      (unfold unsubscribe in refl)
  where
    shorter : length (channels (unsubscribe h user ch) user) < max_subs_per_user
    shorter =
        rw (channels-unsubscribe h user ch user) (
          ground (arith, length-without ch (channels h user), count-le-length ch (channels h user)))
