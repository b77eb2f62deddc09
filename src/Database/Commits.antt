-- ===== src/Database/Commits.antt =====
-- What a transaction leaves, however its commit ends.
use meeting_room_booking_sys.Prelude.{◌≡◌, refl, ap, arith}
use meeting_room_booking_sys.Model.{Result, ok, err}
use meeting_room_booking_sys.Database.{
  CommitReply, committed, refused, lost, transaction, autocommit,
}

module _ {S A : Type 0} where
  -- It leaves what it found or what its statements made.
  pub transaction_keeps :
      (P : S → Type 0) (s : S) (r : Result (S × A)) (reply : CommitReply)
      → P s
      → ((t : S) (a : A) → r ≡ ok (t, a) → P t)
      → P (transaction s r reply).0
  transaction_keeps P s (err e) reply v h = v
  transaction_keeps P s (ok (t, a)) committed v h = h t a refl
  transaction_keeps P s (ok (t, a)) (refused e) v h = v
  transaction_keeps P s (ok (t, a)) (lost e) v h = h t a refl

  pub autocommit_keeps :
      (P : S → Type 0) (s : S) (r : Result (S × A)) (reply : CommitReply)
      → P s
      → ((t : S) (a : A) → r ≡ ok (t, a) → P t)
      → P (autocommit s r reply).0
  autocommit_keeps P s r committed v h = transaction_keeps P s r committed v h
  autocommit_keeps P s r (refused e) v h = v
  autocommit_keeps P s r (lost e) v h = transaction_keeps P s r (lost e) v h

  -- If it succeeds, its statements did.
  pub transaction_ok :
      (s s' : S) (r : Result (S × A)) (reply : CommitReply) (a : A)
      → transaction s r reply ≡ (s', ok a)
      → r ≡ ok (s', a)
  transaction_ok s s' (err e) reply a h = cc (ap (λ x. x.1) h)
  transaction_ok s s' (ok (t, b)) committed a h =
      let same : ok b ≡ ok a = ap (λ x. x.1) h in ground (arith, same, ap (λ x. x.0) h)
  transaction_ok s s' (ok (t, b)) (refused e) a h = cc (ap (λ x. x.1) h)
  transaction_ok s s' (ok (t, b)) (lost e) a h = cc (ap (λ x. x.1) h)
