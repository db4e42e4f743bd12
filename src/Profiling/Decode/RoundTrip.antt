-- ===== src/Profiling/Decode/RoundTrip.antt =====
-- What the format of profiling blobs says is what the decoder reads.
use foundationdb_rs.Prelude.{
  ℕ, ◌+◌, ◌-◌, ◌/◌, ◌%◌, ◌<◌, ◌≡◌, refl, ap, true, false, not, ◌&&◌, Bool-cases, inl, inr, none,
  some, List, [], ◌∷◌, ◌++◌, append-nil, length, length-append, take-append_eq, ltb, ◌==◌, ==_iff,
  arith,
}
use foundationdb_rs.Profiling.{ProtocolVersion, KeyRange, Mutation}
use foundationdb_rs.Profiling.Decode.{
  Reads, ◌>>=◌, unsigned, i64, bool, bytes, key_range, elements, vec, optional, header,
  conflict_range, widen_range, span_context, strip_checksum, widen_clear, mutation, commit_request,
  is_empty_list, ends_in_zero, popped,
}
use foundationdb_rs.Profiling.Decode.Wire.{
  Format, WireText, WireOption, WireAll, WireVec, WireHeader, WireKeyRange, WireConflict,
  WireMutation, WireSpan, WireRequest, IsChecksum, IsText, wire_bool, wire_mutation,
}
use foundationdb_rs.Profiling.Decode.Parts.{
  Parses, Parses-pure, Parses-bind, Parses-last, Parses-offset, Parses-unsigned, Parses-i64,
  Parses-bool, Parses-bytes,
}

Parses-text : (v bs : List ℕ) → WireText v bs → Parses bytes v bs
Parses-text v bs (WireText.text _ h) = Parses-bytes v h

-- A reading that is only checked, or turned, behind its bytes
Parses-then :
    {A B : Type 0} (p : Reads A) (f : A → Reads B) (x : A) (y : B) (bs : List ℕ)
    → Parses p x bs
    → Parses (f x) y []
    → Parses (p >>= f) y bs
Parses-then p f x y bs hp hf = rw (append-nil bs) at (Parses-bind p f x y bs [] hp hf)

-- A format that a reading follows
abbrev Follows : {A : Type 0} → Reads A → Format A → Type 0
Follows {A} p W = (x : A) (bs : List ℕ) → W x bs → Parses p x bs

Parses-optional :
    {A : Type 0} (p : Reads A) (W : Format A) → Follows p W → Follows (optional p) (WireOption W)
unfolding optional
Parses-optional p W h _ _ WireOption.absent =
    Parses-bind bool _ false none (wire_bool false) [] (Parses-bool false) (Parses-pure none)
Parses-optional p W h _ _ (WireOption.present x bs w) =
    Parses-bind bool _ true (some x) (wire_bool true) bs (Parses-bool true)
      (Parses-last p some x bs (h x bs w))

Parses-elements :
    {A : Type 0} (p : Reads A) (W : Format A) (xs : List A) (bs : List ℕ)
    → Follows p W
    → WireAll W xs bs
    → Parses (elements p (length xs)) xs bs
unfolding elements
Parses-elements p W _ _ h WireAll.nil = Parses-pure []
Parses-elements p W _ _ h (WireAll.cons x xs bs cs first rest) =
    Parses-bind p _ x (x ∷ xs) bs cs (h x bs first)
      (Parses-last (elements p (length xs)) (λ xs. x ∷ xs) xs cs (Parses-elements p W xs cs h rest))

Parses-vec : {A : Type 0} (p : Reads A) (W : Format A) → Follows p W → Follows (vec p) (WireVec W)
unfolding vec
Parses-vec p W h _ _ (WireVec.vec xs bs few all) =
    Parses-bind (unsigned 4) (elements p) (length xs) xs _ bs
      (Parses-unsigned 4 (length xs) (omega arith)) (Parses-elements p W xs bs h all)

pub Parses-header : Follows header WireHeader
unfolding header
Parses-header h _ (WireHeader.header _ bs time dc tenant) =
    Parses-bind (unsigned 8) _ h.start_timestamp h _ _
      (Parses-unsigned 8 h.start_timestamp (omega arith))
      (Parses-bind bytes _ h.dc_id h _ bs (Parses-bytes h.dc_id dc) (
        Parses-last (optional bytes) _ h.tenant bs
          (Parses-optional bytes WireText Parses-text h.tenant bs tenant)))

pub Parses-key_range : Follows key_range WireKeyRange
unfolding key_range
Parses-key_range k _ (WireKeyRange.range _ b e) =
    Parses-bind bytes _ k.begin k _ _ (Parses-bytes k.begin b)
      (Parses-last bytes _ k.end _ (Parses-bytes k.end e))

ends_in_zero-append : (key : List ℕ) → ends_in_zero (key ++ 0 ∷ []) ≡ true
ends_in_zero-append [] = refl
ends_in_zero-append (b ∷ []) = refl
ends_in_zero-append (b ∷ c ∷ key) = ends_in_zero-append (c ∷ key)

popped-append : (key : List ℕ) → popped (key ++ 0 ∷ []) ≡ key
popped-append [] = refl
popped-append (b ∷ []) = refl
popped-append (b ∷ c ∷ key) = ap (λ l. b ∷ l) (popped-append (c ∷ key))

not_empty-append : (key : List ℕ) → is_empty_list (key ++ 0 ∷ []) ≡ false
not_empty-append [] = refl
not_empty-append (b ∷ key) = refl

-- What is not the short form is left as it is.
is_whole : (b e : List ℕ) → (e ≡ [] → b ≡ []) → (is_empty_list e && not (is_empty_list b)) ≡ false
is_whole b (x ∷ e) h = refl
is_whole [] [] h = refl
is_whole (x ∷ b) [] h = let no = h refl in cc

Parses-widen_whole :
    (at : ℕ) (k : KeyRange) → (k.end ≡ [] → k.begin ≡ []) → Parses (widen_range at k) k []
unfolding widen_range
Parses-widen_whole at k h = rw (is_whole k.begin k.end h) (Parses-pure k)

Parses-widen_single :
    (at : ℕ) (key : List ℕ)
    → Parses
        (widen_range at (record { begin = key ++ 0 ∷ []; end = [] }))
        (record { begin = key; end = key ++ 0 ∷ [] })
        []
unfolding widen_range
Parses-widen_single at key =
    rw (not_empty-append key, ends_in_zero-append key, popped-append key) (Parses-pure _)

Parses-conflict_range : Follows conflict_range WireConflict
unfolding conflict_range
Parses-conflict_range k bs (WireConflict.whole _ _ h w) =
    Parses-offset (λ at. key_range >>= λ range. widen_range at range) k bs
      (λ at.
        Parses-then key_range (widen_range at) k k bs (Parses-key_range k bs w)
          (Parses-widen_whole at k h))
Parses-conflict_range _ bs (WireConflict.single key _ w) =
    Parses-offset (λ at. key_range >>= λ range. widen_range at range) _ bs
      (λ at.
        Parses-then key_range (widen_range at) _ _ bs (Parses-key_range _ bs w)
          (Parses-widen_single at key))

-- The checksum is taken off, with its flags.
Parses-strip_checksum :
    (at t flags : ℕ) (p q c : List ℕ)
    → t < 64
    → IsChecksum flags c
    → Parses
        (strip_checksum at (record { mutation_type = t + flags; param1 = p; param2 = q ++ c }))
        (record { mutation_type = t; param1 = p; param2 = q })
        []
unfolding strip_checksum
Parses-strip_checksum at t _ p q _ low IsChecksum.no_checksum =
    let clear : ((t + 0) / 128 % 2 == 1) ≡ false = ground arith in
    let same : t + 0 ≡ t = omega arith in rw (clear, same, append-nil q) (Parses-pure _)
Parses-strip_checksum at t _ p q _ low (IsChecksum.checksum c size) =
    let flag : ((t + 128) / 128 % 2 == 1) ≡ true = ground arith in
    let clear : ((t + 128) / 64 % 2 == 1) ≡ false = ground arith in
    let fits : ltb (length (q ++ c)) 4 ≡ false = ground (arith, length-append q c) in
    let same : (t + 128) % 64 ≡ t = omega arith in
    rw
      (
        flag,
        clear,
        fits,
        same,
        take-append_eq (length (q ++ c) - 4) q c (omega (arith, length-append q c)),
      )
      (Parses-pure _)
Parses-strip_checksum at t _ p q _ low (IsChecksum.indexed c size) =
    let flag : ((t + 192) / 128 % 2 == 1) ≡ true = ground arith in
    let clear : ((t + 192) / 64 % 2 == 1) ≡ true = ground arith in
    let fits : ltb (length (q ++ c)) 6 ≡ false = ground (arith, length-append q c) in
    let same : (t + 192) % 64 ≡ t = omega arith in
    rw
      (
        flag,
        clear,
        fits,
        same,
        take-append_eq (length (q ++ c) - 6) q c (omega (arith, length-append q c)),
      )
      (Parses-pure _)

IsChecksum-small : (flags : ℕ) (c : List ℕ) → IsChecksum flags c → flags < 193
IsChecksum-small _ _ IsChecksum.no_checksum = omega arith
IsChecksum-small _ _ (IsChecksum.checksum c h) = omega arith
IsChecksum-small _ _ (IsChecksum.indexed c h) = omega arith

widen_clear_whole :
    (m : Mutation) → (m.mutation_type ≡ 1 → m.param2 ≡ [] → m.param1 ≡ []) → widen_clear m ≡ m
unfolding widen_clear
widen_clear_whole m h = elim (Bool-cases (m.mutation_type == 1)) [
  | inl same ↦ rw (same, is_whole m.param1 m.param2 (h ((==_iff _ 1).0 same))) refl
  | inr other ↦ rw other refl
]

widen_clear_single :
    (key : List ℕ)
    → widen_clear (record { mutation_type = 1; param1 = key ++ 0 ∷ []; param2 = [] })
      ≡ record { mutation_type = 1; param1 = key; param2 = key ++ 0 ∷ [] }
unfolding widen_clear
widen_clear_single key = rw (not_empty-append key, popped-append key) refl

-- A mutation as it is sent, whose short form is opened.
Parses-sent :
    (t flags : ℕ) (p q c : List ℕ) (m : Mutation)
    → t < 64
    → IsText p
    → IsText (q ++ c)
    → IsChecksum flags c
    → widen_clear (record { mutation_type = t; param1 = p; param2 = q }) ≡ m
    → Parses mutation m (wire_mutation (t + flags) p (q ++ c))
unfolding mutation
Parses-sent t flags p q c m low hp hq flagged opened = rw (← opened) (
    Parses-offset _ _ _ (λ at.
      Parses-bind (unsigned 1) _ (t + flags) _ _ _
        (Parses-unsigned 1 (t + flags) (omega (arith, IsChecksum-small flags c flagged)))
        (Parses-bind bytes _ p _ _ _ (Parses-bytes p hp) (
          Parses-then bytes _ (q ++ c) _ _ (Parses-bytes (q ++ c) hq) (
            Parses-last (strip_checksum at _) widen_clear
              (record { mutation_type = t; param1 = p; param2 = q }) []
              (Parses-strip_checksum at t flags p q c low flagged))))))

Parses-mutation : Follows mutation WireMutation
Parses-mutation m _ (WireMutation.whole _ flags c low p q flagged h) =
    Parses-sent m.mutation_type flags m.param1 m.param2 c m low p q flagged (widen_clear_whole m h)
Parses-mutation _ _ (WireMutation.single key flags c p q flagged) =
    Parses-sent 1 flags (key ++ 0 ∷ []) [] c _ (omega arith) p q flagged (widen_clear_single key)

Parses-span_context :
    (version : ProtocolVersion) → Follows (span_context version) (WireSpan version)
unfolding span_context
Parses-span_context version s _ (WireSpan.otel _ new a b i f) =
    Parses-bind (unsigned 8) _ (s.trace_id).0 s _ _ (Parses-unsigned 8 (s.trace_id).0 (omega arith))
      (Parses-bind (unsigned 8) _ (s.trace_id).1 s _ _
        (Parses-unsigned 8 (s.trace_id).1 (omega arith))
        (rw new (
          Parses-bind (unsigned 8) _ s.span_id s _ _ (Parses-unsigned 8 s.span_id (omega arith))
            (Parses-last (unsigned 1) _ s.flags _ (Parses-unsigned 1 s.flags (omega arith))))))
Parses-span_context version _ _ (WireSpan.older a b old ha hb) =
    Parses-bind (unsigned 8) _ a _ _ _ (Parses-unsigned 8 a (omega arith)) (
      Parses-then (unsigned 8) _ b _ _ (Parses-unsigned 8 b (omega arith)) (rw old (Parses-pure _)))

pub Parses-commit_request :
    (version : ProtocolVersion) → Follows (commit_request version) (WireRequest version)
unfolding commit_request
Parses-commit_request version q _
      (WireRequest.request _ reads writes mutations span hr hw hm hs ho) =
    Parses-bind (vec conflict_range) _ q.read_conflict_ranges q reads _
      (Parses-vec conflict_range WireConflict Parses-conflict_range _ reads hr)
      (Parses-bind (vec conflict_range) _ q.write_conflict_ranges q writes _
        (Parses-vec conflict_range WireConflict Parses-conflict_range _ writes hw)
        (Parses-bind (vec mutation) _ q.mutations q mutations _
          (Parses-vec mutation WireMutation Parses-mutation _ mutations hm)
          (Parses-bind i64 _ q.read_snapshot q _ _ (Parses-i64 q.read_snapshot hs) (
            Parses-bind bool _ q.report_conflicting_keys q _ _
              (Parses-bool q.report_conflicting_keys)
              (Parses-bind bool _ q.lock_aware q _ span (Parses-bool q.lock_aware) (
                Parses-last (optional (span_context version)) _ q.span_context span (
                  Parses-optional (span_context version) (WireSpan version)
                    (Parses-span_context version) q.span_context span ho)))))))
