-- ===== src/Streams/Admission.antt =====
-- Who gets a stream.
use meeting_room_booking_sys.Prelude.{
  ℕ, ◌≡◌, ◌<◌, ==_refl, refl, ap, arith, Bool, true, false, Option, none, some, [], ◌∷◌, ◌++◌,
  length, leb, lt_of_leb, sym, ◌∙◌, subst, Bool-cases, inl, inr,
}
use meeting_room_booking_sys.Hub.{Hub, subscribe, max_subs_per_user}
use meeting_room_booking_sys.Hub.Operations.{channels, channels-subscribe}
use meeting_room_booking_sys.Tokens.{TokenStore, consume}
use meeting_room_booking_sys.Streams.{Gate, denied, opened, attach, admit, open_stream}

subscribed :
    (h h' : Hub) (user_id ch : ℕ)
    → subscribe h user_id ≡ (h', some ch)
    → (length (channels h user_id) < max_subs_per_user)
      × (channels h' user_id ≡ channels h user_id ++ ch ∷ [])
unfolding subscribe
subscribed h h' user_id ch e =
    elim (Bool-cases (leb max_subs_per_user (length (channels h user_id)))) [
      | inl full ↦ let none_made : none ≡ some ch = (rw full at (ap (λ r. r.1) e)) in cc none_made
      | inr room ↦
          let made : some h.next_channel ≡ some ch = (rw room at (ap (λ r. r.1) e)) in
          let kept = ap (λ r. channels r.0 user_id) e in
          let asked = channels-subscribe h user_id user_id in
          (
            lt_of_leb max_subs_per_user (length (channels h user_id)) room,
            sym kept ∙ unfold subscribe in ground (arith, asked, made, room, ==_refl user_id),
          )
    ]

-- The token of the answer was the user's, and the hub gave the channel.
abbrev IsAdmitted : Gate → TokenStore × Option ℕ → Gate → ℕ → ℕ → Type 0
IsAdmitted g redeemed g' user_id ch =
    (redeemed.1 ≡ some user_id)
    × (length (channels g.hub user_id) < max_subs_per_user)
    × (channels g'.hub user_id ≡ channels g.hub user_id ++ ch ∷ [])
    × (g'.tokens ≡ redeemed.0)

attach_lem :
    (g g' : Gate) (user_id user_id' ch : ℕ) (r : Hub × Option ℕ)
    → subscribe g.hub user_id ≡ r
    → attach g user_id r ≡ (g', opened user_id' ch)
    → (user_id ≡ user_id')
      × (length (channels g.hub user_id) < max_subs_per_user)
      × (channels g'.hub user_id ≡ channels g.hub user_id ++ ch ∷ [])
      × (g'.tokens ≡ g.tokens)
attach_lem g g' user_id user_id' ch (h, none) s e = cc (ap (λ x. x.1) e)
attach_lem g g' user_id user_id' ch (h, some c) s e =
    let same : opened user_id c ≡ opened user_id' ch = ap (λ x. x.1) e in
    let hub : h ≡ g'.hub = ap (λ x. x.0.hub) e in
    let channel : c ≡ ch = ground (arith, same) in
    let (few, listed) = subscribed g.hub h user_id c s in
    (
      ground (arith, same),
      few,
      subst (λ x. channels x user_id ≡ channels g.hub user_id ++ ch ∷ []) hub
          (listed ∙ ap (λ x. channels g.hub user_id ++ x ∷ []) channel),
      sym (ap (λ x. x.0.tokens) e),
    )

admit-IsAdmitted :
    (g g' : Gate) (flushes unlimited : Bool) (r : TokenStore × Option ℕ) (user_id ch : ℕ)
    → admit g flushes unlimited r ≡ (g', opened user_id ch)
    → IsAdmitted g r g' user_id ch
admit-IsAdmitted g g' flushes unlimited (tokens, none) user_id ch e = cc (ap (λ x. x.1) e)
admit-IsAdmitted g g' false unlimited (tokens, some u) user_id ch e = cc (ap (λ x. x.1) e)
admit-IsAdmitted g g' true false (tokens, some u) user_id ch e = cc (ap (λ x. x.1) e)
admit-IsAdmitted g g' true true (tokens, some u) user_id ch e =
    let (same, few, listed, kept) =
      attach_lem (record g { tokens = tokens }) g' u user_id ch (subscribe g.hub u) refl e in
    subst
      (λ v.
        (some u ≡ some v)
        × (length (channels g.hub v) < max_subs_per_user)
        × (channels g'.hub v ≡ channels g.hub v ++ ch ∷ [])
        × (g'.tokens ≡ tokens))
      same (refl, few, listed, kept)

-- A stream that is opened with a token is opened for the user whom the token redeems for, who had
-- fewer streams than the limit and has one more now; and the same token opens no second stream,
-- whenever it is tried again: the answer is 401 and the hub does not change.
pub open_stream_lem :
    (g g' : Gate) (token now user_id ch : ℕ) (flushes unlimited : Bool)
    → open_stream g (some token) now flushes unlimited ≡ (g', opened user_id ch)
    → ((consume g.tokens token now).1 ≡ some user_id)
      × (length (channels g.hub user_id) < max_subs_per_user)
      × (channels g'.hub user_id ≡ channels g.hub user_id ++ ch ∷ [])
      × ((later : ℕ) (flushes' unlimited' : Bool)
          → ((open_stream g' (some token) later flushes' unlimited').1 ≡ denied 401)
            × ((open_stream g' (some token) later flushes' unlimited').0.hub ≡ g'.hub))
unfolding open_stream consume
open_stream_lem g g' token now user_id ch flushes unlimited e =
    let (redeemed, few, listed, kept) =
      admit-IsAdmitted g g' flushes unlimited (consume g.tokens token now) user_id ch e in
    let gone : g'.tokens token ≡ none = ap (λ s. s token) kept ∙ ground (arith, ==_refl token) in
    (redeemed, few, listed, λ later flushes' unlimited'. (rw gone refl, rw gone refl))
