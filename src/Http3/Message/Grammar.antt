-- ===== src/Http3/Message/Grammar.antt =====
-- The messages that src/http3/stream/message.rs accepts: a whole stream, frame by frame, against
-- the grammar of HTTP messages.
use net_wire_rs.Common.{
  ◌==◌, if◌then◌else◌, false, List, [], ◌∷◌, ◌≡◌, refl, ap, ◌⊎◌, inl, inr, arith,
}
use net_wire_rs.Common.Result.{Result, ok, err, Result-cases}
use net_wire_rs.Http3.Frame.{Http3Frame, frame_type}
use net_wire_rs.Http3.Payload.{type_data, type_headers}
use net_wire_rs.Http3.Message.{
  Http3MessageStreamKind, request_stream, response_stream, push_stream, Http3MessagePosition,
  before_headers, before_final_response, content, trailers, Http3HeadersKind, request_section,
  informational_section, final_section, trailer_section, Http3MessageStreamError,
  Http3MessageStreamState, new, receive, finish, next_position, accept, Http3MessageFrame,
  data_message, headers_message, push_promise_message, unknown_message,
}

-- A received frame, and the kind of its header section if it is a HEADERS frame.
abbrev pub Item : Type 0
Item = Http3Frame × Http3HeadersKind

abbrev pub after_frame :
    Http3MessageStreamState
    → Http3HeadersKind
    → Http3MessageFrame
    → Http3MessageStreamState × Result Http3MessageStreamError (Unit {0})
after_frame s k (headers_message p) =
    let (s', r) = accept p k in elim r [ ok _ ↦ (s', ok tt) | err e ↦ (s', err e) ]
after_frame s k (data_message d) = (s, ok tt)
after_frame s k (push_promise_message p) = (s, ok tt)
after_frame s k (unknown_message f) = (s, ok tt)

-- One frame through the state, and its header section.
unfoldable pub feed :
    Http3MessageStreamState
    → Item
    → Http3MessageStreamState × Result Http3MessageStreamError (Unit {0})
unfolding receive accept
feed s (f, k) = elim (receive s f) [ ok m ↦ after_frame s k m | err e ↦ (s, err e) ]

unfoldable pub feeds :
    Http3MessageStreamState → List Item → Result Http3MessageStreamError Http3MessageStreamState
feeds s [] = ok s
feeds s (i ∷ is) =
    let (s', r) = feed s i in let rest = feeds s' is in elim r [ ok _ ↦ rest | err e ↦ err e ]

-- The HEADERS and DATA frames of a stream; the others are no part of the message.
pub data Symbol : Type 0 where
  section : Http3HeadersKind → Symbol
  body : Symbol

unfoldable pub symbols : List Item → List Symbol
symbols [] = []
symbols ((f, k) ∷ is) =
    let rest = symbols is in
    if frame_type f == type_headers
    then section k ∷ rest
    else if frame_type f == type_data
    then body ∷ rest
    else rest

pub data Body : List Symbol → Type 0 where
  ends : Body []
  trailed : Body (section trailer_section ∷ [])
  extends : {w : List Symbol} → Body w → Body (body ∷ w)

-- The initial section, the body, and trailers at most once.
pub data RequestMessage : List Symbol → Type 0 where
  requested : {w : List Symbol} → Body w → RequestMessage (section request_section ∷ w)

-- Informational sections, the final section, the body, and trailers at most once.
pub data ResponseMessage : List Symbol → Type 0 where
  informed :
      {w : List Symbol} → ResponseMessage w → ResponseMessage (section informational_section ∷ w)
  responded : {w : List Symbol} → Body w → ResponseMessage (section final_section ∷ w)

abbrev pub IsMessage : Http3MessageStreamKind → List Symbol → Type 0
IsMessage request_stream w = RequestMessage w
IsMessage response_stream w = ResponseMessage w
IsMessage push_stream w = ResponseMessage w

-- What has to follow a position.
abbrev pub Rest : Http3MessagePosition → List Symbol → Type 0
Rest before_headers w = RequestMessage w
Rest before_final_response w = ResponseMessage w
Rest content w = Body w
Rest trailers w = w ≡ []

next_cases :
    (k : Http3MessageStreamKind) (p q : Http3MessagePosition) (s : Http3HeadersKind)
    → next_position k p s ≡ ok q
    → ((p ≡ before_headers) × (s ≡ request_section) × (q ≡ content))
      ⊎ ((p ≡ content) × (s ≡ trailer_section) × (q ≡ trailers))
      ⊎ ((p ≡ before_final_response) × (s ≡ informational_section) × (q ≡ before_final_response))
      ⊎ ((p ≡ before_final_response) × (s ≡ final_section) × (q ≡ content))
unfolding next_position
next_cases k p q s e = ground arith

feed_cases :
    (s s' : Http3MessageStreamState) (f : Http3Frame) (k : Http3HeadersKind)
    → feed s (f, k) ≡ (s', ok tt)
    → ((frame_type f ≡ type_headers) × (next_position s.kind s.position k ≡ ok s'.position))
      ⊎ ((frame_type f ≡ type_data) × (s.position ≡ content) × (s'.position ≡ content))
      ⊎ (((frame_type f == type_headers) ≡ false)
          × ((frame_type f == type_data) ≡ false)
          × (s'.position ≡ s.position))
unfolding feed
feed_cases s s' f k e = ground arith

Rest-section :
    (k : Http3MessageStreamKind) (p q : Http3MessagePosition) (s : Http3HeadersKind)
    (w : List Symbol)
    → next_position k p s ≡ ok q
    → Rest q w
    → Rest p (section s ∷ w)
Rest-section k p q s w e r = elim (next_cases k p q s e) [
  | inl (ep, es, eq) ↦ rw (ep, es) (requested (rw eq at r))
  | inr (inl (ep, es, eq)) ↦ rw (ep, es) (let gone : w ≡ [] = rw eq at r in rw gone trailed)
  | inr (inr (inl (ep, es, eq))) ↦ rw (ep, es) (informed (rw eq at r))
  | inr (inr (inr (ep, es, eq))) ↦ rw (ep, es) (responded (rw eq at r))
]

finish-Rest :
    (k : Http3MessageStreamKind) (p : Http3MessagePosition)
    → finish (record { kind = k; position = p }) ≡ ok tt
    → Rest p []
unfolding finish
finish-Rest k before_headers e = cc
finish-Rest k before_final_response e = cc
finish-Rest k content e = ends
finish-Rest k trailers e = refl

feeds-step :
    (s t : Http3MessageStreamState) (i : Item) (is : List Item)
    → feeds s (i ∷ is) ≡ ok t
    → (s' : Http3MessageStreamState) × (feed s i ≡ (s', ok tt)) × (feeds s' is ≡ ok t)
unfolding feeds
feeds-step s t i is e = elim (Result-cases (feed s i).1) [
  | inl (u, q) ↦ ((feed s i).0, ap (λ r. ((feed s i).0, r)) q, rw (q, feeds) at e)
  | inr (x, q) ↦ absurd (ground arith)
]

feeds-Rest :
    (items : List Item) (s t : Http3MessageStreamState)
    → feeds s items ≡ ok t
    → finish t ≡ ok tt
    → Rest s.position (symbols items)
unfolding symbols
feeds-Rest [] s t e done =
    let same : s ≡ t = unfold feeds in cc in finish-Rest s.kind s.position (rw same done)
feeds-Rest ((f, k) ∷ is) s t e done =
    let (s', one, more) = feeds-step s t (f, k) is e in
    let r = feeds-Rest is s' t more done in
    elim (feed_cases s s' f k one) [
      | inl (h, next) ↦ rw h (Rest-section s.kind s.position s'.position k (symbols is) next r)
      | inr (inl (d, at, at')) ↦ rw (d, at) (extends (rw at' at r))
      | inr (inr (h, d, same)) ↦ rw (h, d) (rw same at r)
    ]

-- If every frame of a new stream is received and every header section accepted, and `finish`
-- succeeds at the end, the HEADERS and DATA frames were a message: for a request its section, the
-- body, and at most one trailer section; for a response or a push any informational sections
-- before the final one, the body, and at most one trailer section.
pub feeds-IsMessage :
    (kind : Http3MessageStreamKind) (items : List Item) (t : Http3MessageStreamState)
    → feeds (new kind) items ≡ ok t
    → finish t ≡ ok tt
    → IsMessage kind (symbols items)
feeds-IsMessage request_stream items t e done = feeds-Rest items (new request_stream) t e done
feeds-IsMessage response_stream items t e done = feeds-Rest items (new response_stream) t e done
feeds-IsMessage push_stream items t e done = feeds-Rest items (new push_stream) t e done

-- A frame that a message stream refuses, or whose header section it refuses, leaves its state as
-- it was.
pub feed_unchanged :
    (s s' : Http3MessageStreamState) (i : Item) (x : Http3MessageStreamError)
    → feed s i ≡ (s', err x)
    → s' ≡ s
unfolding feed
feed_unchanged s s' (f, k) x e = ground arith
