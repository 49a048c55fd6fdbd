-- ===== src/Episodic/Rows.antt =====
-- What keeps the invariant of the episodic ledger: a change of rows, and a row that is added.
use agentic_memory_stack_for.Prelude.{
  ℕ, suc, ◌≤◌, ◌<◌, String, ◌≡◌, refl, inl, inr, arith, Bool, true, false, List, [], ◌∷◌, ◌++◌, eqb,
  if◌then◌else◌, length, map, All, All-append, Bool-cases,
}
use agentic_memory_stack_for.Episodic.Summary.{running_summary_cap, or_empty}
use agentic_memory_stack_for.Episodic.Store.{
  Store, Episode, is_in_progress, is_open, update_episode,
}
use agentic_memory_stack_for.Episodic.Open.{
  count_open, count_open-map, count_open-append, is_open-if,
}

abbrev pub IsShort : Episode → Type 0
IsShort e = is_in_progress e.state ≡ true → length (or_empty e.summary_text) ≤ running_summary_cap

-- The ids differ, and the next one is above them all.
abbrev pub Apart : ℕ → List Episode → Type 0
Apart id es = All (λ (e : Episode). eqb e.id id ≡ false) es

abbrev pub IsKeyed : List Episode → Type 0
IsKeyed [] = Unit
IsKeyed (e ∷ es) = Apart e.id es × IsKeyed es

abbrev pub Below : ℕ → List Episode → Type 0
Below n es = All (λ (e : Episode). e.id < n) es

pub record IsLedger (s : Store) : Type 0 where
  pub one : (sid : String) → count_open sid s.episodes ≤ 1
  pub short : All IsShort s.episodes
  pub keyed : IsKeyed s.episodes
  pub below : Below s.next_id s.episodes

-- Only the episodes matter.
pub same_episodes-IsLedger :
    (s t : Store) → t.episodes ≡ s.episodes → t.next_id ≡ s.next_id → IsLedger s → IsLedger t
same_episodes-IsLedger s t e n v = record {
  one = λ sid. rw e (v.one sid);
  short = rw e v.short;
  keyed = rw e v.keyed;
  below = rw (e, n) v.below;
}

module _ (f : Episode → Episode) (same_id : (e : Episode) → (f e).id ≡ e.id) where
  Apart-map : (id : ℕ) (es : List Episode) → Apart id es → Apart id (map f es)
  Apart-map id [] h = tt
  Apart-map id (e ∷ es) h = (ground (arith, same_id e, h.0), Apart-map id es h.1)

  IsKeyed-map : (es : List Episode) → IsKeyed es → IsKeyed (map f es)
  IsKeyed-map [] h = tt
  IsKeyed-map (e ∷ es) h = (rw (same_id e) (Apart-map e.id es h.0), IsKeyed-map es h.1)

  Below-map : (n : ℕ) (es : List Episode) → Below n es → Below n (map f es)
  Below-map n [] h = tt
  Below-map n (e ∷ es) h = (rw (same_id e) h.0, Below-map n es h.1)

  -- A change of rows that keeps their ids and opens none.
  pub IsLedger-map :
      (s : Store)
      → ((sid : String) (e : Episode) → is_open sid (f e) ≡ true → is_open sid e ≡ true)
      → All IsShort (map f s.episodes)
      → IsLedger s
      → IsLedger (record s { episodes = map f s.episodes })
  IsLedger-map s h k v = record {
    one = λ sid. omega (arith, v.one sid, count_open-map sid f s.episodes (h sid));
    short = k;
    keyed = IsKeyed-map s.episodes v.keyed;
    below = Below-map s.next_id s.episodes v.below;
  }

IsShort-update :
    (id : ℕ) (f : Episode → Episode) (es : List Episode)
    → All IsShort es
    → All (λ (e : Episode). eqb e.id id ≡ true → IsShort (f e)) es
    → All IsShort (map (λ e. if eqb e.id id then f e else e) es)
IsShort-update id f [] h k = tt
IsShort-update id f (e ∷ es) h k = (short_if (eqb e.id id) h.0 k.0, IsShort-update id f es h.1 k.1)
  where
    short_if : (b : Bool) → IsShort e → (b ≡ true → IsShort (f e)) → IsShort (if b then f e else e)
    short_if true g l = l refl
    short_if false g l = g

pub id-if : (b : Bool) (e f : Episode) → f.id ≡ e.id → (if b then f else e).id ≡ e.id
id-if true e f h = h
id-if false e f h = refl

pub all_of {ℓ} : {P : Episode → Type ℓ} (es : List Episode) → ((e : Episode) → P e) → All P es
all_of [] h = tt
all_of (e ∷ es) h = (h e, all_of es h)

pub IsLedger-update_episode :
    (s : Store) (id : ℕ) (f : Episode → Episode)
    → ((e : Episode) → (f e).id ≡ e.id)
    → ((sid : String) (e : Episode) → is_open sid (f e) ≡ true → is_open sid e ≡ true)
    → All (λ (e : Episode). eqb e.id id ≡ true → IsShort (f e)) s.episodes
    → IsLedger s
    → IsLedger (update_episode id f s)
unfolding update_episode
IsLedger-update_episode s id f i h k v =
    IsLedger-map (λ e. if eqb e.id id then f e else e) (λ e. id-if (eqb e.id id) e (f e) (i e)) s
      (λ sid e. is_open-if sid (eqb e.id id) e (f e) (h sid e))
      (IsShort-update id f s.episodes v.short k) v

IsKeyed-append :
    (n : ℕ) (es : List Episode) (e : Episode)
    → IsKeyed es
    → Below n es
    → e.id ≡ n
    → IsKeyed (es ++ (e ∷ [])) × Below (suc n) (es ++ (e ∷ []))
IsKeyed-append n [] e h b i = ((tt, tt), (omega (arith, i), tt))
IsKeyed-append n (x ∷ es) e h b i =
    let r = IsKeyed-append n es e h.1 b.1 i in
    let apart : eqb e.id x.id ≡ false = ground (arith, b.0) in
    ((All-append _ es (e ∷ []) h.0 (apart, tt), r.0), (omega (arith, b.0), r.1))

pub IsLedger-append :
    (s : Store) (e : Episode)
    → e.id ≡ s.next_id
    → ((sid : String) → is_open sid e ≡ true → count_open sid s.episodes ≡ 0)
    → IsShort e
    → IsLedger s
    → IsLedger (record s { episodes = s.episodes ++ (e ∷ []); next_id = suc s.next_id })
IsLedger-append s e i h k v =
    let r = IsKeyed-append s.next_id s.episodes e v.keyed v.below i in
    record {
      one = λ sid. elim (Bool-cases (is_open sid e)) [
        | inl a ↦ ground (arith, count_open-append sid s.episodes e, h sid a)
        | inr a ↦ ground (arith, count_open-append sid s.episodes e, v.one sid)
      ];
      short = All-append IsShort s.episodes (e ∷ []) v.short (k, tt);
      keyed = r.0;
      below = r.1;
    }
