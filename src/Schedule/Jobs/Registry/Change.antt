-- ===== src/Schedule/Jobs/Registry/Change.antt =====
-- Taking a job out of the registry, and putting one in.
use mathlib.Core.Path.{subst}
use polarix_plus.Base.{
  if◌then◌else◌, if_false, if_true, if-eq-some, length, get_elem?, All, update_at, Text,
  text_eq_iff, ℕ, ◌≡◌, refl, sym, ap, ◌∙◌, ◌≢◌, inl, inr, Bool, true, false, Option, none, some,
  List, [], ◌∷◌, ◌++◌, arith,
}
use polarix_plus.Schedule.Jobs.{
  id_matches, Registered, id_is, find_job, replace_job, remove_job, stop_job,
}
use polarix_plus.Schedule.Jobs.Cancel.{Extends, Extends-update, Extends-append}
use polarix_plus.Schedule.Jobs.Registry.{
  id_of, id_at, Live, AllLive, Distinct, IsRegistry, SameIds, Extends-SameIds, Distinct-SameIds,
  Keeps-IsRegistry, Keeps-append, Live-other,
}

module _ (P : ℕ → Type 0) where
  pub All-mid : (xs : List ℕ) (o : ℕ) (ys : List ℕ) → All P (xs ++ o ∷ ys) → P o × All P (xs ++ ys)
  All-mid [] o ys h = h
  All-mid (x ∷ xs) o ys h = let (p, r) = All-mid xs o ys h.1 in (p, (h.0, r))

  pub All-mid_back :
      (xs : List ℕ) (o : ℕ) (ys : List ℕ) → P o → All P (xs ++ ys) → All P (xs ++ o ∷ ys)
  All-mid_back [] o ys p h = (p, h)
  All-mid_back (x ∷ xs) o ys p h = (h.0, All-mid_back xs o ys p h.1)

abbrev Unlike : List Registered → ℕ → List ℕ → Type 0
Unlike h r = All (λ q. id_at h q ≢ id_at h r)

pub Distinct-mid :
    (h : List Registered) (xs : List ℕ) (o : ℕ) (ys : List ℕ)
    → Distinct h (xs ++ o ∷ ys)
    → Distinct h (xs ++ ys) × Unlike h o (xs ++ ys)
Distinct-mid h [] o ys d = (d.1, d.0)
Distinct-mid h (x ∷ xs) o ys d =
    let (rest, unlike) = Distinct-mid h xs o ys d.1 in
    let (n, others) = All-mid (λ q. id_at h q ≢ id_at h x) xs o ys d.0 in
    ((others, rest), ((λ e. n (sym e)), unlike))

pub Distinct-mid_back :
    (h : List Registered) (xs : List ℕ) (o : ℕ) (ys : List ℕ)
    → Distinct h (xs ++ ys)
    → Unlike h o (xs ++ ys)
    → Distinct h (xs ++ o ∷ ys)
Distinct-mid_back h [] o ys d u = (u, d)
Distinct-mid_back h (x ∷ xs) o ys d u = (
  All-mid_back (λ q. id_at h q ≢ id_at h x) xs o ys (λ e. u.0 (sym e)) d.0,
  Distinct-mid_back h xs o ys d.1 u.1,
)

-- the other jobs stay alive when one is stopped
AllLive-stop :
    (h : List Registered) (o : ℕ) (qs : List ℕ)
    → Unlike h o qs
    → AllLive h qs
    → AllLive (update_at o stop_job h) qs
AllLive-stop h o [] u l = tt
AllLive-stop h o (q ∷ qs) u l =
    (Live-other o q stop_job h (λ e. u.0 (ap (id_at h) (sym e))) l.0, AllLive-stop h o qs u.1 l.1)

stop-Extends : (h : List Registered) (o : ℕ) → Extends h (update_at o stop_job h)
stop-Extends h o = Extends-update o stop_job h (λ a. (refl, λ e. refl))

-- A job is stopped and taken out.
pub taken_out :
    (h : List Registered) (xs : List ℕ) (o : ℕ) (ys : List ℕ)
    → IsRegistry h (xs ++ o ∷ ys)
    → IsRegistry (update_at o stop_job h) (xs ++ ys)
taken_out h xs o ys v =
    let (rest, unlike) = Distinct-mid h xs o ys v.distinct in
    let (_, alive) = All-mid (λ r. Live (get_elem? h r)) xs o ys v.live in
    record {
      live = AllLive-stop h o (xs ++ ys) unlike alive;
      distinct =
          Distinct-SameIds h (update_at o stop_job h) (xs ++ ys)
            (Extends-SameIds h (update_at o stop_job h) (xs ++ ys) alive (stop-Extends h o)) rest;
    }

get_elem?-last :
    (h : List Registered) (a : Registered) → get_elem? (h ++ a ∷ []) (length h) ≡ some a
get_elem?-last [] a = refl
get_elem?-last (b ∷ h) a = get_elem?-last h a

-- no job has the id
abbrev pub Lacks : List Registered → Text → List ℕ → Type 0
Lacks h id = All (λ q. id_at h q ≢ id)

Unlike-new :
    (h : List Registered) (a : Registered) (qs : List ℕ)
    → SameIds h (h ++ a ∷ []) qs
    → Lacks h a.job.id qs
    → Unlike (h ++ a ∷ []) (length h) qs
Unlike-new h a [] s u = tt
Unlike-new h a (q ∷ qs) s u =
    ((λ e. u.0 (sym s.0 ∙ (e ∙ ap id_of (get_elem?-last h a)))), Unlike-new h a qs s.1 u.1)

-- A live job of a new id is put in, at any place.
pub put_in :
    (h : List Registered) (a : Registered) (xs ys : List ℕ)
    → a.cancelled ≡ false
    → Lacks h a.job.id (xs ++ ys)
    → IsRegistry h (xs ++ ys)
    → IsRegistry (h ++ a ∷ []) (xs ++ length h ∷ ys)
put_in h a xs ys alive u v =
    let kept = Keeps-IsRegistry (xs ++ ys) (Keeps-append h (a ∷ [])) v in
    let same = Extends-SameIds h (h ++ a ∷ []) (xs ++ ys) v.live (Extends-append h (a ∷ [])) in
    record {
      live =
          All-mid_back (λ r. Live (get_elem? (h ++ a ∷ []) r)) xs (length h) ys
            (subst Live (sym (get_elem?-last h a)) alive) kept.live;
      distinct =
          Distinct-mid_back (h ++ a ∷ []) xs (length h) ys kept.distinct
            (Unlike-new h a (xs ++ ys) same u);
    }

-- the place of the job that was found
pub record Found (h : List Registered) (id : Text) (rs : List ℕ) (o : ℕ) : Type 0 where
  pub before : List ℕ
  pub behind : List ℕ
  pub whole : rs ≡ before ++ o ∷ behind
  pub replaced : (n : ℕ) → replace_job h id n rs ≡ before ++ n ∷ behind
  pub removed : remove_job h id rs ≡ before ++ behind
  pub named : id_is h id o ≡ true

pub find_job-Found :
    (h : List Registered) (id : Text) (rs : List ℕ) {o : ℕ}
    → find_job h id rs ≡ some o
    → Found h id rs o
unfolding find_job replace_job remove_job
find_job-Found h id [] e = cc
find_job-Found h id (r ∷ rs) {o} e = elim (if-eq-some (id_is h id r) r (find_job h id rs) e) [
  | inl (hit, same) ↦ record {
    before = [];
    behind = rs;
    whole = ap (λ q. q ∷ rs) same;
    replaced = λ n. if_true (id_is h id r) _ _ hit;
    removed = if_true (id_is h id r) _ _ hit;
    named = subst (λ q. id_is h id q ≡ true) same hit;
  }
  | inr (miss, found) ↦
      let f = find_job-Found h id rs found in
      record {
        before = r ∷ f.before;
        behind = f.behind;
        whole = ap (λ l. r ∷ l) f.whole;
        replaced = λ n. if_false (id_is h id r) _ _ miss ∙ ap (λ l. r ∷ l) (f.replaced n);
        removed = if_false (id_is h id r) _ _ miss ∙ ap (λ l. r ∷ l) f.removed;
        named = f.named;
      }
]

-- a job that does not have an id, by the test and in fact
id_matches-false :
    (id : Text) (o : Option Registered) → Live o → id_matches id o ≡ false → id_of o ≢ id
id_matches-false id none l h = absurd l
id_matches-false id (some a) l h = ground (arith, text_eq_iff a.job.id id)

pub find_job-Lacks :
    (h : List Registered) (id : Text) (rs : List ℕ)
    → AllLive h rs
    → find_job h id rs ≡ none
    → Lacks h id rs
unfolding find_job
find_job-Lacks h id [] l e = tt
find_job-Lacks h id (r ∷ rs) l e =
    let (miss, rest) = if-eq-none (id_is h id r) r (find_job h id rs) e in
    (id_matches-false id (get_elem? h r) l.0 miss, find_job-Lacks h id rs l.1 rest)
  where
    if-eq-none :
        (b : Bool) (d : ℕ) (o : Option ℕ)
        → (if b then some d else o) ≡ none
        → (b ≡ false) × (o ≡ none)
    if-eq-none true d o h = cc
    if-eq-none false d o h = (refl, h)

id_matches-true : (id : Text) (o : Option Registered) → id_matches id o ≡ true → id_of o ≡ id
id_matches-true id none h = cc
id_matches-true id (some a) h = ground (arith, text_eq_iff a.job.id id)

pub Found-id :
    (h : List Registered) (id : Text) (rs : List ℕ) {o : ℕ} → Found h id rs o → id_at h o ≡ id
Found-id h id rs {o} f = id_matches-true id (get_elem? h o) f.named

Unlike-Lacks :
    (h h' : List Registered) (id : Text) (o : ℕ) (qs : List ℕ)
    → id_at h o ≡ id
    → SameIds h h' qs
    → Unlike h o qs
    → Lacks h' id qs
Unlike-Lacks h h' id o [] e s u = tt
Unlike-Lacks h h' id o (q ∷ qs) e s u =
    ((λ p. u.0 (sym s.0 ∙ (p ∙ sym e))), Unlike-Lacks h h' id o qs e s.1 u.1)

-- behind a job that was stopped and taken out, no job has its id
pub taken_out-Lacks :
    (h : List Registered) (id : Text) (rs : List ℕ) {o : ℕ} (f : Found h id rs o)
    → IsRegistry h rs
    → Lacks (update_at o stop_job h) id (f.before ++ f.behind)
taken_out-Lacks h id rs {o} f v =
    let w = subst (IsRegistry h) f.whole v in
    let (_, unlike) = Distinct-mid h f.before o f.behind w.distinct in
    let (_, alive) = All-mid (λ r. Live (get_elem? h r)) f.before o f.behind w.live in
    Unlike-Lacks h (update_at o stop_job h) id o (f.before ++ f.behind) (Found-id h id rs f)
      (Extends-SameIds h (update_at o stop_job h) (f.before ++ f.behind) alive (stop-Extends h o))
      unlike
