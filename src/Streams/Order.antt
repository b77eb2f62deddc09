-- ===== src/Streams/Order.antt =====
-- An open stream shows its user every notification of its channel, in order.
use mathlib.Core.List.{append-nil, append_assoc}
use meeting_room_booking_sys.Prelude.{◌≡◌, sym, ap, ◌∙◌, Bool, true, false, List, [], ◌∷◌, ◌++◌}
use meeting_room_booking_sys.Hub.{Notification}
use meeting_room_booking_sys.Streams.{
  Frame, connected, event, ping, Signal, arrived, notified, ticked, request_done, Written, emit,
  write_loop, write_stream,
}

-- The notifications among the frames.
abbrev pub shown : List Frame → List Notification
shown [] = []
shown (connected ∷ frames) = shown frames
shown (event n ∷ frames) = n ∷ shown frames
shown (ping ∷ frames) = shown frames

-- What was put into the channel.
abbrev pub arrivals : List Signal → List Notification
arrivals [] = []
arrivals (arrived ns ∷ signals) = ns ++ arrivals signals
arrivals (notified writes ∷ signals) = arrivals signals
arrivals (ticked writes ∷ signals) = arrivals signals
arrivals (request_done ∷ signals) = arrivals signals

-- Of a stream that is open: what it showed, and then what waits, are the queue with the arrivals.
abbrev Complete : List Notification → Written → Type 0
Complete all w = w.is_open ≡ true → shown w.frames ++ w.left ≡ all

emit-ping :
    (writes : Bool) (queue all : List Notification) (w : Written)
    → Complete all w
    → Complete all (emit writes ping queue w)
emit-ping true queue all w h = h
emit-ping false queue all w h = λ e. cc

emit-event :
    (writes : Bool) (n : Notification) (queue all : List Notification) (w : Written)
    → Complete all w
    → Complete (n ∷ all) (emit writes (event n) queue w)
emit-event true n queue all w h = λ e. ap (λ r. n ∷ r) (h e)
emit-event false n queue all w h = λ e. cc

write_loop-Complete :
    (queue : List Notification) (signals : List Signal)
    → Complete (queue ++ arrivals signals) (write_loop queue signals)
unfolding write_loop
write_loop-Complete queue [] = λ e. sym (append-nil queue)
write_loop-Complete queue (arrived ns ∷ signals) =
    λ e. write_loop-Complete (queue ++ ns) signals e ∙ append_assoc queue ns (arrivals signals)
write_loop-Complete [] (notified writes ∷ signals) = write_loop-Complete [] signals
write_loop-Complete (n ∷ queue) (notified writes ∷ signals) =
    emit-event writes n queue (queue ++ arrivals signals) (write_loop queue signals)
      (write_loop-Complete queue signals)
write_loop-Complete queue (ticked writes ∷ signals) =
    emit-ping writes queue (queue ++ arrivals signals) (write_loop queue signals)
      (write_loop-Complete queue signals)
write_loop-Complete queue (request_done ∷ signals) = λ e. cc

-- While a stream is open, the notifications that it has shown, followed by those that wait in its
-- channel, are exactly those that were put into the channel, in their order: none is lost, repeated
-- or overtaken.
pub write_stream_lem :
    (writes : Bool) (signals : List Signal)
    → (write_stream writes signals).is_open ≡ true
    → shown (write_stream writes signals).frames ++ (write_stream writes signals).left
      ≡ arrivals signals
unfolding write_stream
write_stream_lem true signals e = write_loop-Complete [] signals e
write_stream_lem false signals e = cc
