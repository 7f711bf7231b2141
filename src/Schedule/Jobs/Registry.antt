-- ===== src/Schedule/Jobs/Registry.antt =====
-- The invariant of the registry: the jobs in it are live, and no two have one id.
pub mod Change
pub mod Keep
use mathlib.Core.Option
use mathlib.Core.Path.{subst}
use native.Mathlib.Decide.{ℕ_discrete}
use polarix_plus.Base.{
  get_elem?, All, update_at, get_elem?-update_at_ne, get_elem?-update_at-map, Text, ℕ, zero, suc,
  ◌≡◌, sym, ap, ◌∙◌, ◌≢◌, false, Option, none, some, List, [], ◌∷◌, ◌++◌,
}
use polarix_plus.Schedule.Jobs.{Job, Registered}
use polarix_plus.Schedule.Jobs.Cancel.{
  LaterAt, Extends, Extends-refl, Extends-trans, Extends-update, Extends-append,
}

abbrev pub id_of : Option Registered → Text
id_of none = []
id_of (some rj) = rj.job.id

abbrev pub id_at : List Registered → ℕ → Text
id_at h r = id_of (get_elem? h r)

abbrev pub Live : Option Registered → Type 0
Live none = ⊥
Live (some rj) = rj.cancelled ≡ false

abbrev pub AllLive : List Registered → List ℕ → Type 0
AllLive h = All (λ r. Live (get_elem? h r))

abbrev pub Distinct : List Registered → List ℕ → Type 0
Distinct h [] = Unit
Distinct h (r ∷ rs) = All (λ q. id_at h q ≢ id_at h r) rs × Distinct h rs

pub record IsRegistry (h : List Registered) (rs : List ℕ) : Type 0 where
  pub live : AllLive h rs
  pub distinct : Distinct h rs

-- a later heap gives a live job the same id
pub same_id : (o o' : Option Registered) → Live o → LaterAt o o' → id_of o' ≡ id_of o
same_id none o' l h = absurd l
same_id (some a) none l h = absurd h
same_id (some a) (some b) l h = ap (λ (j : Job). j.id) h.0

abbrev pub SameIds : List Registered → List Registered → List ℕ → Type 0
SameIds h h' = All (λ r. id_at h' r ≡ id_at h r)

pub Extends-SameIds :
    (h h' : List Registered) (rs : List ℕ) → AllLive h rs → Extends h h' → SameIds h h' rs
Extends-SameIds h h' [] l e = tt
Extends-SameIds h h' (r ∷ rs) l e =
    (same_id (get_elem? h r) (get_elem? h' r) l.0 (e.at r), Extends-SameIds h h' rs l.1 e)

pub unlike-SameIds :
    (h h' : List Registered) (r : ℕ) (rs : List ℕ)
    → id_at h' r ≡ id_at h r
    → SameIds h h' rs
    → All (λ q. id_at h q ≢ id_at h r) rs
    → All (λ q. id_at h' q ≢ id_at h' r) rs
unlike-SameIds h h' r [] e s u = tt
unlike-SameIds h h' r (q ∷ rs) e s u =
    (λ p. u.0 (sym s.0 ∙ (p ∙ e)), unlike-SameIds h h' r rs e s.1 u.1)

pub Distinct-SameIds :
    (h h' : List Registered) (rs : List ℕ) → SameIds h h' rs → Distinct h rs → Distinct h' rs
Distinct-SameIds h h' [] s d = tt
Distinct-SameIds h h' (r ∷ rs) s d =
    (unlike-SameIds h h' r rs s.0 s.1 d.0, Distinct-SameIds h h' rs s.1 d.1)

-- a later heap that keeps live jobs alive
pub record Keeps (h h' : List Registered) : Type 0 where
  pub later : Extends h h'
  pub alive : (r : ℕ) → Live (get_elem? h r) → Live (get_elem? h' r)

All-alive : (h h' : List Registered) (rs : List ℕ) → Keeps h h' → AllLive h rs → AllLive h' rs
All-alive h h' [] k l = tt
All-alive h h' (r ∷ rs) k l = (k.alive r l.0, All-alive h h' rs k l.1)

pub Keeps-IsRegistry :
    {h h' : List Registered} (rs : List ℕ) → Keeps h h' → IsRegistry h rs → IsRegistry h' rs
Keeps-IsRegistry {h} {h'} rs k v = record {
  live = All-alive h h' rs k v.live;
  distinct = Distinct-SameIds h h' rs (Extends-SameIds h h' rs v.live k.later) v.distinct;
}

pub Keeps-refl : (h : List Registered) → Keeps h h
Keeps-refl h = record { later = Extends-refl h; alive = λ r l. l }

pub Keeps-trans : {a b c : List Registered} → Keeps a b → Keeps b c → Keeps a c
Keeps-trans h k = record {
  later = Extends-trans h.later k.later;
  alive = λ r l. k.alive r (h.alive r l);
}

Live-map :
    (f : Registered → Registered) (o : Option Registered)
    → ((a : Registered) → (f a).cancelled ≡ a.cancelled)
    → Live o
    → Live (Option.map f o)
Live-map f none h l = absurd l
Live-map f (some a) h l = h a ∙ l

Live-append : (h t : List Registered) (r : ℕ) → Live (get_elem? h r) → Live (get_elem? (h ++ t) r)
Live-append [] t r l = absurd l
Live-append (a ∷ h) t zero l = l
Live-append (a ∷ h) t (suc r) l = Live-append h t r l

pub Keeps-append : (h t : List Registered) → Keeps h (h ++ t)
Keeps-append h t = record { later = Extends-append h t; alive = Live-append h t }

-- an update that leaves the job and the channel alone
pub Keeps-update :
    (i : ℕ) (f : Registered → Registered) (h : List Registered)
    → ((a : Registered) → ((f a).job ≡ a.job) × ((f a).cancelled ≡ a.cancelled))
    → Keeps h (update_at i f h)
Keeps-update i f h p = record {
  later = Extends-update i f h (λ a. ((p a).0, λ e. (p a).1 ∙ e));
  alive = λ r l. elim (ℕ_discrete i r) [
    | yes e ↦
        subst (λ q. Live (get_elem? (update_at i f h) q)) e
          (rw (get_elem?-update_at-map i f h) (
            Live-map f (get_elem? h i) (λ a. (p a).1)
              (subst (λ q. Live (get_elem? h q)) (sym e) l)))
    | no n ↦ rw (get_elem?-update_at_ne i r f h n) l
  ];
}

-- an update keeps every other job alive
pub Live-other :
    (i r : ℕ) (f : Registered → Registered) (h : List Registered)
    → i ≢ r
    → Live (get_elem? h r)
    → Live (get_elem? (update_at i f h) r)
Live-other i r f h n l = rw (get_elem?-update_at_ne i r f h n) l
