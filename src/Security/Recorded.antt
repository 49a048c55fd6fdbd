-- ===== src/Security/Recorded.antt =====
-- The nonces that the replay store holds and keeps.
use agentic_memory_stack_for.Prelude.{
  ℕ, ◌+◌, String, ◌≡◌, ◌⊎◌, inl, inr, Bool, true, false, Option, some, List, [], ◌∷◌, ◌++◌, ◌≤◌,
  arith, refl, eq_refl, sym, ◌≢◌, Bool-cases, ltb, if◌then◌else◌,
}
use agentic_memory_stack_for.Security.Replay.{
  Instant, unreadable, naive, aware, Line, blank, broken, entry, replay_gc, given, holds, Scan,
  scanned, type_error, keep_entry, read_entry, scan, fresh, record_nonce, check_and_record_nonce,
}

fresh-inj : {x y : List Line} → fresh x ≡ fresh y → x ≡ y
fresh-inj h = cc

module _ (instant : String → Instant) where
  -- The store holds the nonce, and the garbage collection keeps the entry until `limit`.
  abbrev pub Recorded : ℕ → String → List Line → Type 0
  Recorded limit nonce [] = ⊥
  Recorded limit nonce (blank ∷ lines) = Recorded limit nonce lines
  Recorded limit nonce (broken ∷ lines) = Recorded limit nonce lines
  Recorded limit nonce (entry n ts ∷ lines) =
      ((holds n nonce ≡ true) × (t : ℕ) × (instant (given ts) ≡ aware t) × (limit ≤ t + replay_gc))
      ⊎ Recorded limit nonce lines

  abbrev Live : ℕ → String → Scan → Type 0
  Live limit nonce type_error = Unit
  Live limit nonce (scanned seen live) = Recorded limit nonce live

  abbrev Seen : Scan → Type 0
  Seen type_error = Unit
  Seen (scanned seen live) = seen ≡ true

  Recorded-append-left :
      (limit : ℕ) (nonce : String) (store more : List Line)
      → Recorded limit nonce store
      → Recorded limit nonce (store ++ more)
  Recorded-append-left limit nonce [] more h = elim h [ ]
  Recorded-append-left limit nonce (blank ∷ lines) more h =
      Recorded-append-left limit nonce lines more h
  Recorded-append-left limit nonce (broken ∷ lines) more h =
      Recorded-append-left limit nonce lines more h
  Recorded-append-left limit nonce (entry n ts ∷ lines) more (inl h) = inl h
  Recorded-append-left limit nonce (entry n ts ∷ lines) more (inr h) =
      inr (Recorded-append-left limit nonce lines more h)

  Recorded-append-right :
      (limit : ℕ) (nonce : String) (store more : List Line)
      → Recorded limit nonce more
      → Recorded limit nonce (store ++ more)
  Recorded-append-right limit nonce [] more h = h
  Recorded-append-right limit nonce (blank ∷ lines) more h =
      Recorded-append-right limit nonce lines more h
  Recorded-append-right limit nonce (broken ∷ lines) more h =
      Recorded-append-right limit nonce lines more h
  Recorded-append-right limit nonce (entry n ts ∷ lines) more h =
      inr (Recorded-append-right limit nonce lines more h)

  module _ (limit now : ℕ) (early : now ≤ limit) where
    not_ancient : (t : ℕ) → limit ≤ t + replay_gc → ltb (t + replay_gc) now ≡ false
    not_ancient t h = ground arith

    -- An entry on which the scan comes keeps the live entries behind it.
    read_entry-Live :
        (nonce : String) (i : Instant) (same : Bool) (n ts : Option String) (rest : Scan)
        → Live limit nonce rest
        → Live limit nonce (read_entry i now same (entry n ts) rest)
    unfolding read_entry keep_entry
    read_entry-Live nonce unreadable same n ts rest h = h
    read_entry-Live nonce naive same n ts rest h = tt
    read_entry-Live nonce (aware t) same n ts type_error h = tt
    read_entry-Live nonce (aware t) same n ts (scanned seen live) h =
        elim (Bool-cases (ltb (t + replay_gc) now)) [ inl e ↦ rw e h | inr e ↦ rw e (inr h) ]

    read_entry-here :
        (nonce : String) (i : Instant) (t : ℕ) (same : Bool) (n ts : Option String) (rest : Scan)
        → i ≡ aware t
        → instant (given ts) ≡ aware t
        → limit ≤ t + replay_gc
        → holds n nonce ≡ true
        → Live limit nonce (read_entry i now same (entry n ts) rest)
    unfolding read_entry keep_entry
    read_entry-here nonce i t same n ts type_error e f h g = rw e tt
    read_entry-here nonce i t same n ts (scanned seen live) e f h g =
        rw e (rw (not_ancient t h) (inl (g, t, f, h)))

    scan-Live :
        (asked nonce : String) (store : List Line)
        → Recorded limit nonce store
        → Live limit nonce (scan instant now asked store)
    unfolding scan
    scan-Live asked nonce [] h = elim h [ ]
    scan-Live asked nonce (blank ∷ lines) h = scan-Live asked nonce lines h
    scan-Live asked nonce (broken ∷ lines) h = scan-Live asked nonce lines h
    scan-Live asked nonce (entry n ts ∷ lines) (inl (g, t, e, h)) =
        read_entry-here nonce (instant (given ts)) t (holds n asked) n ts
          (scan instant now asked lines) e e h g
    scan-Live asked nonce (entry n ts ∷ lines) (inr h) =
        read_entry-Live nonce (instant (given ts)) (holds n asked) n ts
          (scan instant now asked lines) (scan-Live asked nonce lines h)

    read_entry-Seen :
        (i : Instant) (same : Bool) (line : Line) (rest : Scan)
        → Seen rest
        → Seen (read_entry i now same line rest)
    unfolding read_entry keep_entry
    read_entry-Seen unreadable same line rest h = h
    read_entry-Seen naive same line rest h = tt
    read_entry-Seen (aware t) same line type_error h = tt
    read_entry-Seen (aware t) same line (scanned seen live) h =
        elim (Bool-cases (ltb (t + replay_gc) now)) [
          | inl e ↦ rw e h
          | inr e ↦ rw e (rw h (ground arith))
        ]

    read_entry-match :
        (i : Instant) (t : ℕ) (same : Bool) (line : Line) (rest : Scan)
        → i ≡ aware t
        → limit ≤ t + replay_gc
        → same ≡ true
        → Seen (read_entry i now same line rest)
    unfolding read_entry keep_entry
    read_entry-match i t same line type_error e h g = rw e tt
    read_entry-match i t same line (scanned seen live) e h g =
        rw e (rw (not_ancient t h) (rw g refl))

    scan-Seen :
        (nonce : String) (store : List Line)
        → Recorded limit nonce store
        → Seen (scan instant now nonce store)
    unfolding scan
    scan-Seen nonce [] h = elim h [ ]
    scan-Seen nonce (blank ∷ lines) h = scan-Seen nonce lines h
    scan-Seen nonce (broken ∷ lines) h = scan-Seen nonce lines h
    scan-Seen nonce (entry n ts ∷ lines) (inl (g, t, e, h)) =
        read_entry-match (instant (given ts)) t (holds n nonce) (entry n ts)
          (scan instant now nonce lines) e h g
    scan-Seen nonce (entry n ts ∷ lines) (inr h) =
        read_entry-Seen (instant (given ts)) (holds n nonce) (entry n ts)
          (scan instant now nonce lines) (scan-Seen nonce lines h)

    record_nonce-refuses :
        (large : Bool) (store next : List Line) (nonce ts : String) (s : Scan)
        → Seen s
        → record_nonce large store nonce ts s ≢ fresh next
    unfolding record_nonce
    record_nonce-refuses large store next nonce ts type_error h = λ e. cc
    record_nonce-refuses large store next nonce ts (scanned true live) h = λ e. cc
    record_nonce-refuses large store next nonce ts (scanned false live) h = absurd cc

    record_nonce-Recorded :
        (large : Bool) (store next : List Line) (nonce asked ts : String) (s : Scan)
        → Live limit nonce s
        → Recorded limit nonce store
        → record_nonce large store asked ts s ≡ fresh next
        → Recorded limit nonce next
    unfolding record_nonce
    record_nonce-Recorded large store next nonce asked ts type_error h r e = absurd cc
    record_nonce-Recorded large store next nonce asked ts (scanned true live) h r e = absurd cc
    record_nonce-Recorded true store next nonce asked ts (scanned false live) h r e =
        rw (sym (fresh-inj e))
          (Recorded-append-left limit nonce live (entry (some asked) (some ts) ∷ []) h)
    record_nonce-Recorded false store next nonce asked ts (scanned false live) h r e =
        rw (sym (fresh-inj e))
          (Recorded-append-left limit nonce store (entry (some asked) (some ts) ∷ []) r)

    -- A recorded nonce is refused.
    pub check_and_record_nonce-refuses :
        (large : List Line → Bool) (nonce ts : String) (store next : List Line)
        → Recorded limit nonce store
        → check_and_record_nonce instant large now nonce ts store ≢ fresh next
    unfolding check_and_record_nonce
    check_and_record_nonce-refuses large nonce ts store next h =
        record_nonce-refuses (large store) store next nonce ts (scan instant now nonce store)
          (scan-Seen nonce store h)

    -- A check of any nonce keeps a recorded one.
    pub check_and_record_nonce-keeps :
        (large : List Line → Bool) (nonce asked ts : String) (store next : List Line)
        → Recorded limit nonce store
        → check_and_record_nonce instant large now asked ts store ≡ fresh next
        → Recorded limit nonce next
    unfolding check_and_record_nonce
    check_and_record_nonce-keeps large nonce asked ts store next h e =
        record_nonce-Recorded (large store) store next nonce asked ts (scan instant now asked store)
          (scan-Live asked nonce store h) h e

  record_nonce-records :
      (large : Bool) (limit t : ℕ) (nonce ts : String) (store next : List Line) (s : Scan)
      → instant ts ≡ aware t
      → limit ≤ t + replay_gc
      → record_nonce large store nonce ts s ≡ fresh next
      → Recorded limit nonce next
  unfolding record_nonce
  record_nonce-records large limit t nonce ts store next type_error i h e = absurd cc
  record_nonce-records large limit t nonce ts store next (scanned true live) i h e = absurd cc
  record_nonce-records large limit t nonce ts store next (scanned false live) i h e =
      rw (sym (fresh-inj e)) (
        Recorded-append-right limit nonce (if large then live else store)
          (entry (some nonce) (some ts) ∷ []) (inl (eq_refl nonce, t, i, h)))

  -- A nonce that is found fresh is recorded.
  pub check_and_record_nonce-records :
      (large : List Line → Bool) (now limit t : ℕ) (nonce ts : String) (store next : List Line)
      → instant ts ≡ aware t
      → limit ≤ t + replay_gc
      → check_and_record_nonce instant large now nonce ts store ≡ fresh next
      → Recorded limit nonce next
  unfolding check_and_record_nonce
  check_and_record_nonce-records large now limit t nonce ts store next i h e =
      record_nonce-records (large store) limit t nonce ts store next (scan instant now nonce store)
        i h e
