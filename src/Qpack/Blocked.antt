-- ===== src/Qpack/Blocked.antt =====
-- src/qpack/state/blocked.rs: the accounting of streams whose field sections await insertions. A
-- call that changes it returns it beside its result; `none` is an underflow of `len`.
pub mod Scan
pub mod Sound
pub mod Removal
pub mod Query
use net_wire_rs.Common.{
  ℕ, ◌+◌, ◌≤◌, max, ltb, leb, ◌==◌, if◌then◌else◌, Bool, true, false, not, List, [], ◌∷◌, map,
  length, Option, none, some,
}
use net_wire_rs.Common.Result.{Result, ok, err, checked_sub}

pub record QpackBlockedStream : Type 0 where
  pub occupied : Bool
  pub stream_id : ℕ
  pub required_insert_count : ℕ

-- QpackBlockedStream::EMPTY
abbrev pub empty_stream : QpackBlockedStream
empty_stream = record { occupied = false; stream_id = 0; required_insert_count = 0 }

pub data QpackBlockedStreamsError : Type 0 where
  maximum_blocked_streams_exceeds_storage : ℕ → ℕ → QpackBlockedStreamsError
  blocked_streams_limit_exceeded : ℕ → QpackBlockedStreamsError

pub record QpackBlockedStreams : Type 0 where
  pub records : List QpackBlockedStream
  pub maximum_blocked_streams : ℕ
  pub len : ℕ

-- QpackBlockedStreams::new. A u64 is a usize, so the conversion does not fail.
unfoldable pub new :
    List QpackBlockedStream → ℕ → Result QpackBlockedStreamsError QpackBlockedStreams
new records maximum =
    if ltb (length records) maximum
    then err (maximum_blocked_streams_exceeds_storage maximum (length records))
    else ok (record {
      records = map (λ _. empty_stream) records;
      maximum_blocked_streams = maximum;
      len = 0;
    })

-- `record.occupied && record.stream_id == stream_id`
abbrev pub holds : ℕ → QpackBlockedStream → Bool
holds stream_id r = if r.occupied then r.stream_id == stream_id else false

unfoldable pub any : (QpackBlockedStream → Bool) → List QpackBlockedStream → Bool
any p [] = false
any p (r ∷ rs) = let rest = any p rs in if p r then true else rest

unfoldable pub contains : QpackBlockedStreams → ℕ → Bool
contains s stream_id = any (holds stream_id) s.records

unfoldable pub is_blocked : QpackBlockedStreams → ℕ → ℕ → Bool
is_blocked s stream_id insert_count =
    any (λ r. if holds stream_id r then ltb insert_count r.required_insert_count else false)
      s.records

-- `for record in self.records.iter_mut() { if p(record) { *record = f(record); return ... } }`:
-- the records after the return, or none if the loop ends without one.
unfoldable pub update_first :
    (QpackBlockedStream → Bool)
    → (QpackBlockedStream → QpackBlockedStream)
    → List QpackBlockedStream
    → Option (List QpackBlockedStream)
update_first p f [] = none
update_first p f (r ∷ rs) =
    let rest = update_first p f rs in
    if p r then some (f r ∷ rs) else elim rest [ some rs' ↦ some (r ∷ rs') | none ↦ none ]

abbrev pub raise : ℕ → QpackBlockedStream → QpackBlockedStream
raise count r = record r { required_insert_count = max r.required_insert_count count }

abbrev pub occupy : ℕ → ℕ → QpackBlockedStream → QpackBlockedStream
occupy stream_id count r = record {
  occupied = true;
  stream_id = stream_id;
  required_insert_count = count;
}

-- `register` of a stream that no record holds.
unfoldable pub register_new :
    QpackBlockedStreams → ℕ → ℕ → QpackBlockedStreams × Result QpackBlockedStreamsError (Unit {0})
register_new s stream_id count =
    let exceeded : QpackBlockedStreams × Result QpackBlockedStreamsError (Unit {0}) =
      (s, err (blocked_streams_limit_exceeded s.maximum_blocked_streams)) in
    if leb s.maximum_blocked_streams s.len
    then exceeded
    else elim (update_first (λ r. not r.occupied) (occupy stream_id count) s.records) [
      | some rs ↦ (record s { records = rs; len = s.len + 1 }, ok tt)
      | none ↦ exceeded
    ]

-- QpackBlockedStreams::register
unfoldable pub register :
    QpackBlockedStreams → ℕ → ℕ → QpackBlockedStreams × Result QpackBlockedStreamsError (Unit {0})
register s stream_id count = elim (update_first (holds stream_id) (raise count) s.records) [
  | some rs ↦ (record s { records = rs }, ok tt)
  | none ↦ register_new s stream_id count
]

-- QpackBlockedStreams::remove
unfoldable pub remove : QpackBlockedStreams → ℕ → Option (QpackBlockedStreams × Bool)
remove s stream_id = elim (update_first (holds stream_id) (λ _. empty_stream) s.records) [
  | some rs ↦ elim (checked_sub s.len 1) [
    | some len ↦ some (record s { records = rs; len = len }, true)
    | none ↦ none
  ]
  | none ↦ some (s, false)
]

-- The records that the iterator of `ready` yields.
unfoldable pub ready : List QpackBlockedStream → ℕ → List QpackBlockedStream
ready [] insert_count = []
ready (r ∷ rs) insert_count =
    let rest = ready rs insert_count in
    if r.occupied
    then (if leb r.required_insert_count insert_count then r ∷ rest else rest)
    else rest
