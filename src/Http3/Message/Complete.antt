-- ===== src/Http3/Message/Complete.antt =====
-- Every message of the grammar is accepted by src/http3/stream/message.rs.
use net_wire_rs.Common.{false, List, [], ◌∷◌, All, ◌≡◌, refl, sym, ap, subst, ◌⊎◌, inl, inr, arith}
use net_wire_rs.Common.Result.{ok}
use net_wire_rs.Http3.Frame.{Http3Frame, frame_type}
use net_wire_rs.Http3.Payload.{type_data, type_headers, headers_from_frame, data_from_frame}
use net_wire_rs.Http3.Message.{
  Http3MessageStreamKind, request_stream, response_stream, push_stream, Http3MessagePosition,
  before_headers, before_final_response, content, trailers, Http3HeadersKind, request_section,
  informational_section, final_section, trailer_section, Http3MessageStreamState, new, finish,
  next_position, is_trailers,
}
use net_wire_rs.Http3.Message.Grammar.{
  Item, feed, feeds, Symbol, section, body, symbols, Body, ends, trailed, extends, RequestMessage,
  requested, ResponseMessage, informed, responded, IsMessage, Rest,
}

-- A HEADERS or a DATA frame.
abbrev pub IsPart : Item → Type 0
IsPart (f, k) = (frame_type f ≡ type_headers) ⊎ (frame_type f ≡ type_data)

-- The positions of each kind of stream.
abbrev Fits : Http3MessageStreamKind → Http3MessagePosition → Type 0
Fits request_stream before_final_response = ⊥
Fits response_stream before_headers = ⊥
Fits push_stream before_headers = ⊥
Fits k p = Unit

tail_of : {s : Symbol} {v w : List Symbol} {x : Symbol} → (x ∷ v) ≡ (s ∷ w) → v ≡ w
tail_of e = cc

RequestMessage-section :
    {v : List Symbol} (s : Http3HeadersKind) (w : List Symbol)
    → RequestMessage v
    → v ≡ section s ∷ w
    → (request_section ≡ s) × Body w
RequestMessage-section s w (requested b) e = (cc, subst Body (tail_of e) b)

ResponseMessage-section :
    {v : List Symbol} (s : Http3HeadersKind) (w : List Symbol)
    → ResponseMessage v
    → v ≡ section s ∷ w
    → ((informational_section ≡ s) × ResponseMessage w) ⊎ ((final_section ≡ s) × Body w)
ResponseMessage-section s w (informed r) e = inl (cc, subst ResponseMessage (tail_of e) r)
ResponseMessage-section s w (responded b) e = inr (cc, subst Body (tail_of e) b)

Body-section :
    {v : List Symbol} (s : Http3HeadersKind) (w : List Symbol)
    → Body v
    → v ≡ section s ∷ w
    → (trailer_section ≡ s) × (w ≡ [])
Body-section s w ends e = absurd cc
Body-section s w trailed e = (cc, sym (tail_of e))
Body-section s w (extends b) e = absurd cc

Body-body : {v : List Symbol} (w : List Symbol) → Body v → v ≡ body ∷ w → Body w
Body-body w ends e = absurd cc
Body-body w trailed e = absurd cc
Body-body w (extends b) e = subst Body (tail_of e) b

-- A step that a section makes.
abbrev Steps :
    Http3MessageStreamKind → Http3MessagePosition → Http3HeadersKind → List Symbol → Type 0
Steps k p s w =
    (q : Http3MessagePosition) × (next_position k p s ≡ ok q)
    × Fits k q
    × Rest q w
    × (is_trailers p ≡ false)

content-step :
    (k : Http3MessageStreamKind) (s : Http3HeadersKind) (w : List Symbol)
    → Body (section s ∷ w)
    → Steps k content s w
unfolding next_position
content-step request_stream s w b =
    let (e, z) = Body-section s w b refl in rw (← e) (trailers, refl, tt, z, refl)
content-step response_stream s w b =
    let (e, z) = Body-section s w b refl in rw (← e) (trailers, refl, tt, z, refl)
content-step push_stream s w b =
    let (e, z) = Body-section s w b refl in rw (← e) (trailers, refl, tt, z, refl)

section-step :
    (k : Http3MessageStreamKind) (p : Http3MessagePosition) (s : Http3HeadersKind) (w : List Symbol)
    → Fits k p
    → Rest p (section s ∷ w)
    → Steps k p s w
unfolding next_position
section-step k trailers s w h r = absurd cc
section-step k content s w h r = content-step k s w r
section-step request_stream before_headers s w h r =
    let (e, b) = RequestMessage-section s w r refl in rw (← e) (content, refl, tt, b, refl)
section-step response_stream before_final_response s w h r =
    elim (ResponseMessage-section s w r refl) [
      | inl (e, m) ↦ rw (← e) (before_final_response, refl, tt, m, refl)
      | inr (e, b) ↦ rw (← e) (content, refl, tt, b, refl)
    ]
section-step push_stream before_final_response s w h r = elim (ResponseMessage-section s w r refl) [
  | inl (e, m) ↦ rw (← e) (before_final_response, refl, tt, m, refl)
  | inr (e, b) ↦ rw (← e) (content, refl, tt, b, refl)
]
section-step request_stream before_final_response s w h r = absurd h
section-step response_stream before_headers s w h r = absurd h
section-step push_stream before_headers s w h r = absurd h

Rest-body :
    (p : Http3MessagePosition) (w : List Symbol) → Rest p (body ∷ w) → (p ≡ content) × Body w
Rest-body before_headers w r = absurd (go r refl)
  where
    go : {v : List Symbol} → RequestMessage v → v ≡ body ∷ w → ⊥
    go (requested b) e = absurd cc
Rest-body before_final_response w r = absurd (go r refl)
  where
    go : {v : List Symbol} → ResponseMessage v → v ≡ body ∷ w → ⊥
    go (informed b) e = absurd cc
    go (responded b) e = absurd cc
Rest-body content w r = (refl, Body-body w r refl)
Rest-body trailers w r = absurd cc

feed-headers :
    (k : Http3MessageStreamKind) (p q : Http3MessagePosition) (f : Http3Frame)
    (s : Http3HeadersKind)
    → frame_type f ≡ type_headers
    → next_position k p s ≡ ok q
    → is_trailers p ≡ false
    → feed (record { kind = k; position = p }) (f, s) ≡ (record { kind = k; position = q }, ok tt)
unfolding feed headers_from_frame
feed-headers k p q f s e n t = ground arith

feed-data :
    (k : Http3MessageStreamKind) (f : Http3Frame) (s : Http3HeadersKind)
    → frame_type f ≡ type_data
    → feed (record { kind = k; position = content }) (f, s)
      ≡ (record { kind = k; position = content }, ok tt)
unfolding feed data_from_frame
feed-data k f s e = rw e refl

feeds-cons :
    (s s' t : Http3MessageStreamState) (i : Item) (is : List Item)
    → feed s i ≡ (s', ok tt)
    → feeds s' is ≡ ok t
    → feeds s (i ∷ is) ≡ ok t
unfolding feeds
feeds-cons s s' t i is e run =
    let there : (feed s i).0 ≡ s' = ap (λ r. r.0) e in
    let fine : (feed s i).1 ≡ ok tt = ap (λ r. r.1) e in rw (fine, there, feeds) run

complete :
    (k : Http3MessageStreamKind) (p : Http3MessagePosition) (items : List Item)
    → Fits k p
    → All IsPart items
    → Rest p (symbols items)
    → (t : Http3MessageStreamState) × (feeds (record { kind = k; position = p }) items ≡ ok t)
      × (finish t ≡ ok tt)
unfolding symbols feeds
complete k content [] h parts r =
    (record { kind = k; position = content }, refl, unfold finish in refl)
complete k trailers [] h parts r =
    (record { kind = k; position = trailers }, refl, unfold finish in refl)
complete k before_headers [] h parts r = absurd (body_less r refl)
  where
    body_less : {v : List Symbol} → RequestMessage v → v ≡ [] → ⊥
    body_less (requested b) e = absurd cc
complete k before_final_response [] h parts r = absurd (body_less r refl)
  where
    body_less : {v : List Symbol} → ResponseMessage v → v ≡ [] → ⊥
    body_less (informed b) e = absurd cc
    body_less (responded b) e = absurd cc
complete k p ((f, s) ∷ is) h (inl e, parts) r =
    let (q, n, fit, rest, open_still) = section-step k p s (symbols is) h (rw e at r) in
    let (t, run, done) = complete k q is fit parts rest in
    (t, feeds-cons _ _ t (f, s) is (feed-headers k p q f s e n open_still) run, done)
complete k p ((f, s) ∷ is) h (inr e, parts) r =
    let (here, rest) = Rest-body p (symbols is) (rw e at r) in
    let (t, run, done) = complete k content is (rw here at h) parts rest in
    (t, feeds-cons _ _ t (f, s) is (rw here (feed-data k f s e)) run, done)

-- If the frames of a new stream are HEADERS and DATA frames and, with the kinds of their header
-- sections, a message of the grammar, every frame is received, every section accepted, and
-- `finish` succeeds.
pub feeds_complete :
    (kind : Http3MessageStreamKind) (items : List Item)
    → All IsPart items
    → IsMessage kind (symbols items)
    → (t : Http3MessageStreamState) × (feeds (new kind) items ≡ ok t) × (finish t ≡ ok tt)
feeds_complete request_stream items parts m =
    complete request_stream before_headers items tt parts m
feeds_complete response_stream items parts m =
    complete response_stream before_final_response items tt parts m
feeds_complete push_stream items parts m =
    complete push_stream before_final_response items tt parts m
