-- ===== src/Audit/Verify/Written.antt =====
-- The audit tool accepts the ledger's own logs.
use distributed_ai_networkin.Prelude.{
  ℕ, ◌+◌, String, ◌≡◌, refl, sym, ap, ◌∙◌, inl, inr, true, Option, none, some, List, [], ◌∷◌, ◌++◌,
  arith, Option-cases, is_some, All,
}
use distributed_ai_networkin.Audit.Verify.{
  start, event, Reading, verify_ledger, same_bytes_refl, check_lines, Progress, check_line,
  ToolLibraries, read_line, canonical_dict,
}
use distributed_ai_networkin.Audit.Ledger.{
  last_line, recovered_hash, init, lines_of, write_event, domain, hash_event, append, next_hash,
  linked, TamperEvidentLedger, LedgerLibraries, canonical,
}
use distributed_ai_networkin.Audit.Ledger.Chain.{append-keeps, lines-snoc, LedgerLaws}
use distributed_ai_networkin.State.{Etcd}
use distributed_ai_networkin.Interfaces.{Bytes, HexLaws}
use distributed_ai_networkin.Contracts.Models.{AuditEvent}
use distributed_ai_networkin.Contracts.Json
use distributed_ai_networkin.Contracts.Json.{Json, text, obj, finite_fields, finite_fields-put}
use distributed_ai_networkin.Prelude.Floats.{Floats}

module _ {F K : Type 0} ⦃fl : Floats F⦄ (lib : LedgerLibraries F K)
    (loads : String → Option (Json F)) where
  -- What is documented of pydantic and `json`: a dictionary has a key for each field of its model, and
  -- `json.loads` reads the line of an event back as its dictionary, unless a number is not finite,
  -- since pydantic writes null for such.
  pub record EventLaws : Type 0 where
    pub model_dump-previous_event_hash :
        (e : AuditEvent F) (s : String)
        → lib.model_dump (record e { previous_event_hash = s })
          ≡ Json.put (lib.model_dump e) "previous_event_hash" (text s)
    pub model_dump-event_hash :
        (e : AuditEvent F) (s : String)
        → lib.model_dump (record e { event_hash = s })
          ≡ Json.put (lib.model_dump e) "event_hash" (text s)
    pub loads-dump :
        (e : AuditEvent F)
        → finite_fields (lib.model_dump e) ≡ true
        → loads (lib.dump e) ≡ some (obj (lib.model_dump e))

  -- the tool calls the same functions of `json` and `bytes` as the ledger
  abbrev pub tool : ToolLibraries F
  tool = record { loads = loads; dumps = lib.dumps; hexes = lib.hexes }

  abbrev pub read : String → Reading
  read = read_line tool

  -- No number of the event is infinite or a NaN.
  abbrev pub IsFinite : AuditEvent F → Type 0
  IsFinite e = finite_fields (lib.model_dump e) ≡ true

  -- the file and the last hash after appending events, one after another
  abbrev pub append_all :
      List (AuditEvent F) → TamperEvidentLedger K × Etcd F → TamperEvidentLedger K × Etcd F
  append_all [] x = x
  append_all (e ∷ es) (l, etcd) = append_all es (append lib e l etcd)

  module _ (ll : LedgerLaws lib) (hl : HexLaws lib.hexes) (el : EventLaws) where
    canonical-event_hash :
        (e : AuditEvent F) (s : String)
        → canonical lib (record e { event_hash = s }) ≡ canonical lib e
    unfolding canonical
    canonical-event_hash e s =
        ap (lib.dumps true (",", ":")) (
          rw (el.model_dump-event_hash e s) (Json.pop-put (lib.model_dump e) "event_hash" (text s)))

    -- the dictionary of an event with its links
    linked_dict :
        (e : AuditEvent F) (prev : Bytes)
        → lib.model_dump (linked lib e prev)
          ≡ Json.put
              (Json.put (lib.model_dump e) "previous_event_hash" (text (lib.hexes.hex prev)))
              "event_hash"
              (text (lib.hexes.hex (next_hash lib e prev)))
    unfolding linked next_hash
    linked_dict e prev =
        let p = lib.hexes.hex prev in
        let e' = record e { previous_event_hash = p } in
        el.model_dump-event_hash e' (lib.hexes.hex (hash_event lib e' prev))
        ∙ ap (λ fs. Json.put fs "event_hash" (text (lib.hexes.hex (hash_event lib e' prev))))
            (el.model_dump-previous_event_hash e p)

    linked-IsFinite : (e : AuditEvent F) (prev : Bytes) → IsFinite e → IsFinite (linked lib e prev)
    linked-IsFinite e prev h = rw (linked_dict e prev) (
        finite_fields-put
          (Json.put (lib.model_dump e) "previous_event_hash" (text (lib.hexes.hex prev)))
          "event_hash" (lib.hexes.hex (next_hash lib e prev))
          (finite_fields-put (lib.model_dump e) "previous_event_hash" (lib.hexes.hex prev) h))

    -- what the tool reads of the line of an event
    read-linked :
        (e : AuditEvent F) (prev : Bytes)
        → IsFinite e
        → read (lib.dump (linked lib e prev))
          ≡ event (record {
            previous_event_hash = prev;
            event_hash = next_hash lib e prev;
            canonical = canonical lib (linked lib e prev);
          })
    unfolding read_line canonical_dict canonical
    read-linked e prev h =
        let fs = lib.model_dump e in
        let p = lib.hexes.hex prev in
        let n = lib.hexes.hex (next_hash lib e prev) in
        let fs' = Json.put fs "previous_event_hash" (text p) in
        rw (el.loads-dump (linked lib e prev) (linked-IsFinite e prev h)) (
          rw (linked_dict e prev) (
            rw (Json.get-put fs' "event_hash" "previous_event_hash" (text n)) (
              rw (Json.get-put fs "previous_event_hash" "previous_event_hash" (text p)) (
                rw (Json.get-put fs' "event_hash" "event_hash" (text n)) (
                  rw (hl.fromhex-hex prev) (
                    rw (hl.fromhex-hex (next_hash lib e prev)) (
                      ap
                        (λ x. event (record {
                          previous_event_hash = prev;
                          event_hash = next_hash lib e prev;
                          canonical = lib.dumps true (",", ":") (Json.pop x "event_hash");
                        }))
                        (sym (linked_dict e prev)))))))))

    -- the tool after `n` events without an error
    abbrev clean_after : ℕ → Bytes → Progress
    clean_after n h = record { expected_prev_hash = h; line_number = n; errors = 0 }

    check_line-good :
        (n : ℕ) (p : Bytes) (line : String) (h canonical : Bytes)
        → read line
          ≡ event (record { previous_event_hash = p; event_hash = h; canonical = canonical })
        → h ≡ lib.sha256 (domain ++ (p ++ canonical))
        → check_line lib.sha256 read (clean_after n p) line ≡ some (clean_after (n + 1) h)
    unfolding check_line
    check_line-good n p line h canonical r e =
        ground (arith, r, e, same_bytes_refl p, same_bytes_refl h)

    check_line-dump :
        (n : ℕ) (prev : Bytes) (e : AuditEvent F)
        → IsFinite e
        → check_line lib.sha256 read (clean_after n prev) (lib.dump (linked lib e prev))
          ≡ some (clean_after (n + 1) (next_hash lib e prev))
    unfolding linked next_hash hash_event
    check_line-dump n prev e finite =
        let e' = record e { previous_event_hash = lib.hexes.hex prev } in
        let h = next_hash lib e prev in
        check_line-good n prev (lib.dump (linked lib e prev)) h (canonical lib (linked lib e prev))
          (read-linked e prev finite) (rw (canonical-event_hash e' (lib.hexes.hex h)) refl)

    check_lines-snoc :
        (p q : Progress) (lines : List String) (line : String)
        → check_lines lib.sha256 read p lines ≡ some q
        → check_lines lib.sha256 read p (lines ++ line ∷ []) ≡ check_line lib.sha256 read q line
    unfolding check_lines
    check_lines-snoc p q [] line h = ground (arith, h)
    check_lines-snoc p q (l ∷ lines) line h = elim (Option-cases (check_line lib.sha256 read p l)) [
      | inl e ↦ ground (arith, e, h)
      | inr (p', e) ↦ ground (arith, e, h, check_lines-snoc p' q lines line)
    ]

    -- The tool has read the file without an error and expects the ledger's last hash.
    abbrev IsInStep : TamperEvidentLedger K → Type 0
    IsInStep l =
        (is_some l.file ≡ true)
        × ((n : ℕ) × (check_lines lib.sha256 read start (lines_of l.file)
              ≡ some (clean_after n l.last_hash)))

    write_event-IsInStep :
        (e : AuditEvent F) (l : TamperEvidentLedger K)
        → IsFinite e
        → IsInStep l
        → IsInStep (write_event lib e l)
    unfolding write_event
    write_event-IsInStep e l finite (there, (n, clean)) =
        let line = lib.dump (linked lib e l.last_hash) in
        (
          refl,
          (
            n + 1,
            rw (lines-snoc l.file line (ll.dump-ne-empty (linked lib e l.last_hash))) (
                check_lines-snoc start (clean_after n l.last_hash) (lines_of l.file) line clean
                ∙ check_line-dump n l.last_hash e finite),
          ),
        )

    append_all-IsInStep :
        (events : List (AuditEvent F)) (l : TamperEvidentLedger K) (etcd : Etcd F)
        → All IsFinite events
        → IsInStep l
        → IsInStep (append_all events (l, etcd)).0
    append_all-IsInStep [] l etcd finite h = h
    append_all-IsInStep (e ∷ es) l etcd finite h =
        let (same_file, same_hash) = append-keeps lib e l etcd in
        append_all-IsInStep es (append lib e l etcd).0 (append lib e l etcd).1 finite.1
          (rw same_file (rw same_hash (write_event-IsInStep e l finite.0 h)))

    accepted :
        (file : Option (List String)) (n : ℕ) (h : Bytes)
        → is_some file ≡ true
        → check_lines lib.sha256 read start (lines_of file) ≡ some (clean_after n h)
        → verify_ledger lib.sha256 read file ≡ some true
    unfolding verify_ledger
    accepted none n h there clean = ground (arith, there)
    accepted (some lines) n h there clean = ground (arith, clean)

    -- Whatever events are appended to a ledger that was opened on an empty file, with the checkpoints that are due, the tool accepts the file, provided that no number in the events is infinite or a NaN.
    pub verify_ledger-append_all :
        (events : List (AuditEvent F)) (interval : ℕ) (key : K) (etcd : Etcd F)
        → All IsFinite events
        → verify_ledger lib.sha256 read
            (append_all events (init lib (some []) interval key etcd)).0.file
          ≡ some true
    unfolding init lines_of check_lines recovered_hash last_line
    verify_ledger-append_all events interval key etcd finite =
        let (l, etcd') = init lib (some []) interval key etcd in
        let (there, (n, clean)) = append_all-IsInStep events l etcd' finite (refl, (0, refl)) in
        accepted (append_all events (l, etcd')).0.file n _ there clean
