-- ===== src/Profiling/Decode/Blob.antt =====
-- A whole profiling blob is decoded to the events that it stands for.
use foundationdb_rs.Prelude.{
  ℕ, zero, suc, ◌+◌, ◌^◌, ◌<◌, ◌≡◌, refl, ap, sym, ◌∙◌, true, false, some, List, [], ◌++◌, length,
  length-append, length-drop, le→leb, ◌==◌, ok, pos, arith,
}
use foundationdb_rs.Tuple.Subspace.{le_bytes}
use foundationdb_rs.Profiling.{ProtocolVersion, EventHeader, Event}
use foundationdb_rs.Profiling.Decode.{
  Reader, remaining, unsigned, i32, i64, bytes, key_range, header, commit_request, event_body,
  event_of, event, events, after_version, decode_events, is_supported,
}
use foundationdb_rs.Profiling.Decode.Wire.{WireAll, WireBody, WireEvent}
use foundationdb_rs.Profiling.Decode.Parts.{
  At, Parses, Parses-bind, Parses-last, Parses-unsigned, Parses-i32, Parses-i64, Parses-bytes,
}
use foundationdb_rs.Profiling.Decode.RoundTrip.{
  Parses-header, Parses-key_range, Parses-commit_request,
}

Parses-event_body :
    (version : ProtocolVersion) (h : EventHeader) (t : ℕ) (x : Event) (bs : List ℕ)
    → WireBody version h t x bs
    → Parses (event_body version h t) x bs
unfolding event_body
Parses-event_body version h _ _ _ (WireBody.get_version latency priority v hl hp hv) =
    Parses-bind (unsigned 8) _ latency _ _ _ (Parses-unsigned 8 latency (omega arith)) (
      Parses-bind (unsigned 4) _ priority _ _ _ (Parses-unsigned 4 priority (omega arith))
        (Parses-last i64 _ v _ (Parses-i64 v hv)))
Parses-event_body version h _ _ _ (WireBody.get latency size key hl hs hk) =
    Parses-bind (unsigned 8) _ latency _ _ _ (Parses-unsigned 8 latency (omega arith)) (
      Parses-bind i32 _ size _ _ _ (Parses-i32 size hs)
        (Parses-last bytes _ key _ (Parses-bytes key hk)))
Parses-event_body version h _ _ _ (WireBody.get_range latency size range bs hl hs hr) =
    Parses-bind (unsigned 8) _ latency _ _ _ (Parses-unsigned 8 latency (omega arith)) (
      Parses-bind i32 _ size _ _ _ (Parses-i32 size hs)
        (Parses-last key_range _ range bs (Parses-key_range range bs hr)))
Parses-event_body version h _ _ _ (WireBody.commit latency n b v q bs hl hn hb hv hq) =
    Parses-bind (unsigned 8) _ latency _ _ _ (Parses-unsigned 8 latency (omega arith)) (
      Parses-bind i32 _ n _ _ _ (Parses-i32 n hn) (
        Parses-bind i32 _ b _ _ _ (Parses-i32 b hb) (
          Parses-bind i64 _ v _ _ bs (Parses-i64 v hv)
            (Parses-last (commit_request version) _ q bs (Parses-commit_request version q bs hq)))))
Parses-event_body version h _ _ _ (WireBody.get_error e key he hk) =
    Parses-bind i32 _ e _ _ _ (Parses-i32 e he) (Parses-last bytes _ key _ (Parses-bytes key hk))
Parses-event_body version h _ _ _ (WireBody.get_range_error e range bs he hr) =
    Parses-bind i32 _ e _ _ bs (Parses-i32 e he)
      (Parses-last key_range _ range bs (Parses-key_range range bs hr))
Parses-event_body version h _ _ _ (WireBody.commit_error e q bs he hq) =
    Parses-bind i32 _ e _ _ bs (Parses-i32 e he)
      (Parses-last (commit_request version) _ q bs (Parses-commit_request version q bs hq))

Parses-event :
    (version : ProtocolVersion) (x : Event) (bs : List ℕ)
    → WireEvent version x bs
    → Parses (event version) x bs
unfolding event event_of
Parses-event version x _ (WireEvent.event t h _ hs bs low head body) =
    Parses-bind i32 (event_of version) (pos t) x _ _ (Parses-i32 (pos t) (omega arith)) (
      rw (le→leb t 6 (omega arith)) (
        Parses-bind header _ h x hs bs (Parses-header h hs head)
          (Parses-event_body version h t x bs body)))

-- An event has a byte, so that the loop does not stop before it.
WireEvent-size :
    (version : ProtocolVersion) (x : Event) (bs : List ℕ) → WireEvent version x bs → 0 < length bs
WireEvent-size version x _ (WireEvent.event t h _ hs bs low head body) = omega arith

remaining-At : (r : Reader) (xs : List ℕ) → At r xs → remaining r ≡ length xs
remaining-At r xs (inside, here) = sym (length-drop r.pos r.buf) ∙ ap length here

events-wire :
    (fuel : ℕ) (version : ProtocolVersion) (r : Reader) (xs : List Event) (bs : List ℕ)
    → WireAll (WireEvent version) xs bs
    → At r bs
    → length bs < fuel
    → events fuel version r ≡ some (ok xs)
unfolding events
events-wire zero version r xs bs w at enough = absurd (omega arith)
events-wire (suc fuel) version r _ _ WireAll.nil at enough =
    let done : remaining r ≡ 0 = remaining-At r [] at in rw done refl
events-wire (suc fuel) version r _ _ (WireAll.cons x xs bs cs first rest) at enough =
    let size = remaining-At r (bs ++ cs) at in
    let some_left = WireEvent-size version x bs first in
    let both = length-append bs cs in
    let more : (remaining r == 0) ≡ false = ground arith in
    let (r', read, at') = (Parses-event version x bs first).reads r cs at in
    rw (more, read, events-wire fuel version r' xs cs rest at' (omega arith)) refl

-- A blob of a supported version, whose bytes stand for some events in the format of that version, is
-- decoded to the version and these events, in their order: with short forms opened and checksums
-- taken off.
pub decode_events-wire :
    (version : ProtocolVersion) (xs : List Event) (bs : List ℕ)
    → is_supported version ≡ true
    → version < 2 ^ 64
    → WireAll (WireEvent version) xs bs
    → decode_events (le_bytes 8 version ++ bs) ≡ some (ok (version, xs))
unfolding decode_events after_version
decode_events-wire version xs bs known small w =
    let blob = le_bytes 8 version ++ bs in
    let (r, read, at) =
      (Parses-unsigned 8 version (omega arith)).reads (record { buf = blob; pos = 0 }) bs
        (omega arith, refl) in
    let enough : length bs < length blob + 1 =
      omega (arith, length-append (le_bytes 8 version) bs) in
    ap (after_version (length blob + 1)) read
    ∙ rw (known, events-wire (length blob + 1) version r xs bs w at enough) refl
