-- ===== src/Hub/Isolation/Invariance.antt =====
-- Every step of the hub keeps the invariant, whatever the interleaving.
use meeting_room_booking_sys.Prelude.{
  ℕ, suc, ◌≤◌, ◌≡◌, refl, List, [], ◌∷◌, ◌++◌, map, arith, length, length-append, All, All-append,
  All-imp, All-split, leb, ltb, ◌==◌, Bool-cases, ==_iff, subst, sym, inl, inr,
}
use meeting_room_booking_sys.Hub.{
  Notification, new_hub, subscribe, unsubscribe, without, offer, max_subs_per_user, queue_size,
  assign,
}
use meeting_room_booking_sys.Hub.Channels.{
  count, count-append, count-without, without-All, length-without,
}
use meeting_room_booking_sys.Hub.Operations.{
  channels, channels-unsubscribe, subs-offer, next_channel-offer, queues-offer, offered,
}
use meeting_room_booking_sys.Hub.Isolation.{
  System, start, record_owner, read_queue, Step, subscribes, unsubscribes, copies, sends_one, reads,
  Reached, initially, stepped, IsOwnedBy, Inv,
}

pub start-Inv : Inv start
unfolding start new_hub
start-Inv = record {
  few = λ u. omega arith;
  distinct = λ u c. omega arith;
  owned = λ u. tt;
  short = λ c. omega arith;
  queued = λ c. tt;
  sending = tt;
}

count_unmade :
    (owner : ℕ → ℕ) (bound user c : ℕ) (xs : List ℕ)
    → All (IsOwnedBy owner bound user) xs
    → bound ≤ c
    → count c xs ≡ 0
count_unmade owner bound user c [] h le = refl
count_unmade owner bound user c (x ∷ xs) (hx, hxs) le =
    ground (arith, count_unmade owner bound user c xs hxs le)

-- The owner of a channel made before stays when the next channel is made.
assign-IsOwnedBy :
    (owner : ℕ → ℕ) (bound user v c : ℕ)
    → IsOwnedBy owner bound v c
    → IsOwnedBy (assign owner bound user) (suc bound) v c
assign-IsOwnedBy owner bound user v c h = ground arith

subscribes-Inv :
    (s : System) (user : ℕ)
    → Inv s
    → Inv (record s {
      hub = (subscribe s.hub user).0;
      owner = record_owner (subscribe s.hub user).1 user s.owner;
    })
unfolding subscribe
subscribes-Inv s user v = elim (Bool-cases (leb max_subs_per_user (length (channels s.hub user)))) [
  | inl full ↦ rw full v
  | inr room ↦ rw room (record {
    few = λ u. ground (arith, v.few u, length-append (channels s.hub user) (ch ∷ []));
    distinct = λ u c. ground (
      arith,
      v.distinct u c,
      v.distinct user c,
      count-append c (channels s.hub user) (ch ∷ []),
      unmade,
    );
    owned = λ u. elim (Bool-cases (u == user)) [
      | inl same ↦ rw same (
          subst
            (λ w.
              All (IsOwnedBy (assign s.owner ch user) (suc ch) w) (channels s.hub user ++ ch ∷ []))
            (sym ((==_iff u user).0 same)) mine)
      | inr other ↦ rw other (All-imp _ (λ c. assign-IsOwnedBy s.owner ch user u c) (v.owned u))
    ];
    short = λ c. ground (arith, v.short c);
    queued =
        λ c. elim (Bool-cases (c == ch)) [ inl made ↦ rw made tt | inr old ↦ rw old (v.queued c) ];
    sending = All-imp _ (λ p. assign-IsOwnedBy s.owner ch user p.1.user_id p.0) v.sending;
  })
]
  where
    ch : ℕ
    ch = s.hub.next_channel

    mine : All (IsOwnedBy (assign s.owner ch user) (suc ch) user) (channels s.hub user ++ ch ∷ [])
    mine =
        All-append _ (channels s.hub user) (ch ∷ [])
          (All-imp _ (λ c. assign-IsOwnedBy s.owner ch user user c) (v.owned user))
          ((ground arith, omega arith), tt)

    unmade : count ch (channels s.hub user) ≡ 0
    unmade = count_unmade s.owner ch user ch _ (v.owned user) (omega arith)

unsubscribes-Inv :
    (s : System) (ch : ℕ) → Inv s → Inv (record s { hub = unsubscribe s.hub (s.owner ch) ch })
unfolding unsubscribe
unsubscribes-Inv s ch v = record {
  few = λ u.
      rw (channels-unsubscribe s.hub user ch u)
        (ground (arith, v.few u, v.few user, length-without ch (channels s.hub user)));
  distinct = λ u c.
      rw (channels-unsubscribe s.hub user ch u) (
        ground
          (arith, v.distinct u c, v.distinct user c, count-without c ch (channels s.hub user)));
  owned = λ u. rw (channels-unsubscribe s.hub user ch u) (elim (Bool-cases (u == user)) [
    | inl same ↦ rw same (
        subst (λ w. All (IsOwnedBy s.owner s.hub.next_channel w) (without ch (channels s.hub user)))
          (sym ((==_iff u user).0 same)) (without-All _ ch (channels s.hub user) (v.owned user)))
    | inr other ↦ rw other (v.owned u)
  ]);
  short = v.short;
  queued = v.queued;
  sending = v.sending;
}
  where
    user : ℕ
    user = s.owner ch

All-copies :
    (owner : ℕ → ℕ) (bound : ℕ) (n : Notification) (chans : List ℕ)
    → All (IsOwnedBy owner bound n.user_id) chans
    → All {A = ℕ × Notification}
        (λ p. IsOwnedBy owner bound p.1.user_id p.0)
        (map (λ ch. (ch, n)) chans)
All-copies owner bound n [] h = tt
All-copies owner bound n (c ∷ chans) h = (h.0, All-copies owner bound n chans h.1)

copies-Inv :
    (s : System) (n : Notification)
    → Inv s
    → Inv (record s { sends = s.sends ++ map (λ ch. (ch, n)) (channels s.hub n.user_id) })
copies-Inv s n v = record {
  few = v.few;
  distinct = v.distinct;
  owned = v.owned;
  short = v.short;
  queued = v.queued;
  sending =
      All-append _ s.sends _ v.sending
        (All-copies s.owner s.hub.next_channel n (channels s.hub n.user_id) (v.owned n.user_id));
}

All-offered :
    (P : Notification → Type 0) (q : List Notification) (n : Notification)
    → All P q
    → P n
    → All P (offered q n)
All-offered P q n h pn = elim (Bool-cases (ltb (length q) queue_size)) [
  | inl room ↦ rw room (All-append P q (n ∷ []) h (pn, tt))
  | inr full ↦ rw full h
]

sends_one-Inv :
    (s : System) (before after : List (ℕ × Notification)) (ch : ℕ) (n : Notification)
    → s.sends ≡ before ++ (ch, n) ∷ after
    → Inv s
    → Inv (record s { hub = offer s.hub ch n; sends = before ++ after })
sends_one-Inv s before after ch n e v = record {
  few = λ u. rw (subs-offer s.hub ch n) (v.few u);
  distinct = λ u c. rw (subs-offer s.hub ch n) (v.distinct u c);
  owned = λ u. rw (subs-offer s.hub ch n, next_channel-offer s.hub ch n) (v.owned u);
  short = λ c.
      rw (queues-offer s.hub ch n c)
        (ground (arith, v.short c, v.short ch, length-append (s.hub.queues ch) (n ∷ [])));
  queued = λ c. rw (queues-offer s.hub ch n c) (elim (Bool-cases (c == ch)) [
    | inl same ↦ rw same (
        subst (λ w. All (λ m. s.owner w ≡ m.user_id) (offered (s.hub.queues ch) n))
          (sym ((==_iff c ch).0 same)) (All-offered _ (s.hub.queues ch) n (v.queued ch) rest.1.0.0))
    | inr other ↦ rw other (v.queued c)
  ]);
  sending = rw (next_channel-offer s.hub ch n) (All-append _ before after rest.0 rest.1.1);
}
  where
    rest :
        All (λ p. IsOwnedBy s.owner s.hub.next_channel p.1.user_id p.0) before
        × All (λ p. IsOwnedBy s.owner s.hub.next_channel p.1.user_id p.0) ((ch, n) ∷ after)
    rest = All-split _ before ((ch, n) ∷ after) (rw e at v.sending)

reads-Inv :
    (s : System) (ch : ℕ) (n : Notification) (rest : List Notification)
    → s.hub.queues ch ≡ n ∷ rest
    → Inv s
    → Inv (record s { hub = read_queue s.hub ch rest })
reads-Inv s ch n rest e v = record {
  few = v.few;
  distinct = v.distinct;
  owned = v.owned;
  short = λ c. ground (arith, v.short c, v.short ch);
  queued = λ c. elim (Bool-cases (c == ch)) [
    | inl same ↦
        rw same
          (subst (λ w. All (λ m. s.owner w ≡ m.user_id) rest) (sym ((==_iff c ch).0 same)) left)
    | inr other ↦ rw other (v.queued c)
  ];
  sending = v.sending;
}
  where
    left : All (λ m. s.owner ch ≡ m.user_id) rest
    left = let all : All (λ m. s.owner ch ≡ m.user_id) (n ∷ rest) = (rw e at (v.queued ch)) in all.1

pub Step-Inv : {s t : System} → Step s t → Inv s → Inv t
Step-Inv {s} (subscribes user) v = subscribes-Inv s user v
Step-Inv {s} (unsubscribes ch) v = unsubscribes-Inv s ch v
Step-Inv {s} (copies n) v = copies-Inv s n v
Step-Inv {s} (sends_one before after ch n e) v = sends_one-Inv s before after ch n e v
Step-Inv {s} (reads ch n rest e) v = reads-Inv s ch n rest e v

-- Whatever the interleaving of subscriptions, unsubscriptions, broadcasts with their single sends and
-- reads, from an empty hub: no user has more channels than the limit, the channels of a user are
-- distinct and were made for that user, no queue is longer than its capacity, and what waits in a
-- channel, or is about to be sent to it, is addressed to the user that the channel was made for.
pub Reached-Inv : {now : System} → Reached now → Inv now
Reached-Inv initially = start-Inv
Reached-Inv (stepped st earlier) = Step-Inv st (Reached-Inv earlier)
