-- ===== src/Security/Scanned.antt =====
-- What the scan of the replay store finds, in terms of the lines that carry a live timestamp.
use agentic_memory_stack_for.Prelude.{
  ℕ, ◌+◌, String, ◌≡◌, refl, sym, ◌∙◌, ap, ◌↔◌, inl, inr, Bool, true, false, not, ◌&&◌, ◌||◌,
  Option, none, some, List, [], ◌∷◌, ◌++◌, ltb, ◌==◌, if◌then◌else◌, any, filter, Bool-cases,
}
use agentic_memory_stack_for.Security.Replay.{
  Instant, unreadable, naive, aware, Line, blank, broken, entry, replay_gc, given, Scan, scanned,
  type_error, keep_entry, read_entry, scan, fresh, record_nonce, check_and_record_nonce, holds,
}

abbrev instant_is_naive : Instant → Bool
instant_is_naive unreadable = false
instant_is_naive naive = true
instant_is_naive (aware t) = false

abbrev instant_is_live : ℕ → Instant → Bool
instant_is_live now unreadable = false
instant_is_live now naive = false
instant_is_live now (aware t) = not (ltb (t + replay_gc) now)

-- The line carries a timestamp without a zone.
abbrev is_naive : (String → Instant) → Line → Bool
is_naive instant blank = false
is_naive instant broken = false
is_naive instant (entry n ts) = instant_is_naive (instant (given ts))

-- The line carries a timestamp that has not been outlived.
abbrev pub is_live : (String → Instant) → ℕ → Line → Bool
is_live instant now blank = false
is_live instant now broken = false
is_live instant now (entry n ts) = instant_is_live now (instant (given ts))

abbrev carries : String → Line → Bool
carries nonce blank = false
carries nonce broken = false
carries nonce (entry none ts) = false
carries nonce (entry (some n) ts) = n == nonce

module _ (instant : String → Instant) (now : ℕ) (nonce : String) where
  abbrev spends : Line → Bool
  spends line = is_live instant now line && carries nonce line

  abbrev found : List Line → Scan
  found store =
      if any (is_naive instant) store
      then type_error
      else scanned (any spends store) (filter (is_live instant now) store)

  read_entry_lem :
      (i : Instant) (n ts : Option String) (bad seen : Bool) (live : List Line)
      → read_entry i now
          (holds n nonce)
          (entry n ts)
          (if bad then type_error else scanned seen live)
        ≡ (if instant_is_naive i || bad
            then type_error
            else scanned
                ((instant_is_live now i && carries nonce (entry n ts)) || seen)
                (if instant_is_live now i then entry n ts ∷ live else live))
  unfolding read_entry keep_entry
  read_entry_lem unreadable n ts bad seen live = refl
  read_entry_lem naive n ts bad seen live = refl
  read_entry_lem (aware t) n ts true seen live = refl
  read_entry_lem (aware t) none ts false seen live = elim (Bool-cases (ltb (t + replay_gc) now)) [
    | inl e ↦ rw e refl
    | inr e ↦ rw e refl
  ]
  read_entry_lem (aware t) (some n) ts false seen live =
      elim (Bool-cases (ltb (t + replay_gc) now)) [ inl e ↦ rw e refl | inr e ↦ rw e refl ]

  scan_lem : (store : List Line) → scan instant now nonce store ≡ found store
  unfolding scan any filter
  scan_lem [] = refl
  scan_lem (blank ∷ ls) = scan_lem ls
  scan_lem (broken ∷ ls) = scan_lem ls
  scan_lem (entry n ts ∷ ls) =
      ap (read_entry (instant (given ts)) now (holds n nonce) (entry n ts)) (scan_lem ls)
      ∙ read_entry_lem (instant (given ts)) n ts _ _ _

recorded_iff :
    (large bad seen : Bool) (live store next : List Line) (nonce ts : String)
    → (record_nonce large store nonce ts (if bad then type_error else scanned seen live)
        ≡ fresh next)
      ↔ ((bad ≡ false)
          × (seen ≡ false)
          × (next ≡ (if large then live else store) ++ (entry (some nonce) (some ts) ∷ [])))
unfolding record_nonce
recorded_iff large true seen live store next nonce ts = ((λ h. absurd cc), (λ h. absurd cc))
recorded_iff large false true live store next nonce ts = ((λ h. absurd cc), (λ h. absurd cc))
recorded_iff large false false live store next nonce ts =
    ((λ h. (refl, refl, cc)), (λ h. ap fresh (sym h.2)))

module _ (instant : String → Instant) (large : List Line → Bool) (now : ℕ) (nonce ts : String)
    (store next : List Line) where
  -- No line of the store has a time without a zone, no live one carries the nonce, and the next
  -- store is this one, or its live lines when it is large, with the nonce behind.
  abbrev pub IsFirstUse : Type 0
  IsFirstUse =
      (any (is_naive instant) store ≡ false)
      × (any (spends instant now nonce) store ≡ false)
      × (next
          ≡ (if large store then filter (is_live instant now) store else store)
            ++ (entry (some nonce) (some ts) ∷ []))

  pub check_and_record_nonce-fresh_iff :
      (check_and_record_nonce instant large now nonce ts store ≡ fresh next) ↔ IsFirstUse
  unfolding check_and_record_nonce
  check_and_record_nonce-fresh_iff =
      rw (scan_lem instant now nonce store) (recorded_iff (large store) _ _ _ store next nonce ts)
