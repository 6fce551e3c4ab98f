-- ===== src/Transport/Frame.antt =====
-- What an action sends, and what it leaves alone: one rule for each way to build an action.
use mathlib.Core.List.{◌∷◌}
use mathlib.Core.Path.{subst}
use sonicwall_sdk.Prelude.{
  String, Bool, true, false, List, ◌≡◌, refl, sym, ◌∙◌, inl, inr, if◌then◌else◌,
}
use sonicwall_sdk.Errors.{Error, http, cancelled, Result, ok, err}
use sonicwall_sdk.Errors.Classes.{Result-cases}
use sonicwall_sdk.Exec.{
  Exec, pure, raise, lift, gets, try_except, try_else, try_finally, except_exception, ◌>>=◌,
}
use sonicwall_sdk.Transport.{Env, Request, Session, send}

-- The log grew from `l` by requests that all satisfy `P`.
pub data Sent (P : Request → Type 0) (l : List Request) : List Request → Type 0 where
  here : Sent P l l
  more : {l' : List Request} {r : Request} → P r → Sent P l l' → Sent P l (r ∷ l')

pub Sent-trans :
    {P : Request → Type 0} {a b c : List Request} → Sent P a b → Sent P b c → Sent P a c
Sent-trans p here = p
Sent-trans p (more h q) = more h (Sent-trans p q)

pub Sent-mono :
    {P Q : Request → Type 0} {a b : List Request}
    → ((r : Request) → P r → Q r)
    → Sent P a b
    → Sent Q a b
Sent-mono f here = here
Sent-mono f (more {r = r} h q) = more (f r h) (Sent-mono f q)

-- The two base URLs of a client, which no method assigns.
pub record Site : Type 0 where
  pub base_url : String
  pub auth_base_url : String

abbrev pub site : Session → Site
site s = record { base_url = s.base_url; auth_base_url = s.auth.base_url }

-- From `s` to `t` only requests in `P` were sent, and base URLs and depth are the same.
pub record Frame (P : Request → Type 0) (s t : Session) : Type 0 where
  pub same_site : site t ≡ site s
  pub same_depth : t.depth ≡ s.depth
  pub sent : Sent P s.log t.log

pub Frame-refl : {P : Request → Type 0} (s : Session) → Frame P s s
Frame-refl s = record { same_site = refl; same_depth = refl; sent = here }

pub Frame-trans : {P : Request → Type 0} {s t u : Session} → Frame P s t → Frame P t u → Frame P s u
Frame-trans f g = record {
  same_site = g.same_site ∙ f.same_site;
  same_depth = g.same_depth ∙ f.same_depth;
  sent = Sent-trans f.sent g.sent;
}

-- `m` does so from each session of the site `x`, whether it returns or raises.
pub record Does (P : Request → Type 0) (x : Site) {A : Type 0} (m : Exec Session A) : Type 0 where
  pub at : (s : Session) → site s ≡ x → Frame P s (m s).1

module _ {P : Request → Type 0} {x : Site} {A : Type 0} where
  pub Does-pure : (a : A) → Does P x (pure a)
  unfolding pure
  Does-pure a = record { at = λ s h. Frame-refl s }

  pub Does-raise : (e : Error) → Does P x (raise {A = A} e)
  unfolding raise
  Does-raise e = record { at = λ s h. Frame-refl s }

  pub Does-lift : (r : Result A) → Does P x (lift r)
  unfolding lift
  Does-lift r = record { at = λ s h. Frame-refl s }

  pub Does-gets : (f : Session → A) → Does P x (gets f)
  unfolding gets
  Does-gets f = record { at = λ s h. Frame-refl s }

  pub Does-if :
      (b : Bool) (m n : Exec Session A) → Does P x m → Does P x n → Does P x (if b then m else n)
  Does-if true m n p q = p
  Does-if false m n p q = q

  pub Does-except :
      (h : Error → Exec Session A) (e : Error) → Does P x (h e) → Does P x (except_exception h e)
  Does-except h cancelled d = Does-raise cancelled
  Does-except h (http e) d = d
  Does-except h _ d = d

  pub Does-try :
      (m : Exec Session A) (h : Error → Exec Session A)
      → Does P x m
      → ((e : Error) → Does P x (h e))
      → Does P x (try_except m h)
  unfolding try_except
  Does-try m h p q = record { at = λ s e. let (r, t) = m s in go r t (p.at s e) e }
    where
      go :
          (r : Result A) (t : Session) {s : Session}
          → Frame P s t
          → site s ≡ x
          → Frame P s (try_except {State = Session} (λ _. (r, t)) h s).1
      go (ok a) t f e = f
      go (err c) t f e = Frame-trans f ((q c).at t (f.same_site ∙ e))

module _ {P : Request → Type 0} {x : Site} {A B : Type 0} where
  pub Does-bind :
      (m : Exec Session A) (f : A → Exec Session B)
      → Does P x m
      → ((a : A) → Does P x (f a))
      → Does P x (m >>= f)
  unfolding ◌>>=◌
  Does-bind m f p q = record { at = λ s e. let (r, t) = m s in go r t (p.at s e) e }
    where
      go :
          (r : Result A) (t : Session) {s : Session}
          → Frame P s t
          → site s ≡ x
          → Frame P s (◌>>=◌ {State = Session} (λ _. (r, t)) f s).1
      go (ok a) t fr e = Frame-trans fr ((q a).at t (fr.same_site ∙ e))
      go (err c) t fr e = fr

  -- What the rest reads of the session's state is known to belong to the site.
  pub Does-bind-gets :
      (g : Session → A) (f : A → Exec Session B)
      → ((s : Session) → site s ≡ x → Does P x (f (g s)))
      → Does P x (gets g >>= f)
  unfolding ◌>>=◌
  Does-bind-gets g f q = record { at = λ s e. (q s e).at s e }

  pub Does-else :
      (m : Exec Session A) (h : Error → Exec Session B) (f : A → Exec Session B)
      → Does P x m
      → ((e : Error) → Does P x (h e))
      → ((a : A) → Does P x (f a))
      → Does P x (try_else m h f)
  unfolding try_else
  Does-else m h f p q k = record { at = λ s e. let (r, t) = m s in go r t (p.at s e) e }
    where
      go :
          (r : Result A) (t : Session) {s : Session}
          → Frame P s t
          → site s ≡ x
          → Frame P s (try_else {State = Session} (λ _. (r, t)) h f s).1
      go (ok a) t fr e = Frame-trans fr ((k a).at t (fr.same_site ∙ e))
      go (err c) t fr e = Frame-trans fr ((q c).at t (fr.same_site ∙ e))

-- A cleanup runs whatever happened before, and leaves the last state.
try_finally-state :
    {A : Type 0} (m : Exec Session A) (cleanup : Exec Session (Unit {0})) (s : Session)
    → (try_finally m cleanup s).1 ≡ (cleanup (m s).1).1
unfolding try_finally
try_finally-state m cleanup s = elim (Result-cases (cleanup (m s).1).0) [
  | inl (_, p) ↦ rw p refl
  | inr (_, p) ↦ rw p refl
]

module _ {P : Request → Type 0} {x : Site} {A : Type 0} where
  pub Does-finally :
      (m : Exec Session A) (cleanup : Exec Session (Unit {0}))
      → Does P x m
      → Does P x cleanup
      → Does P x (try_finally m cleanup)
  Does-finally m cleanup p q = record {
    at = λ s e.
        let first = p.at s e in
        subst (Frame P s) (sym (try_finally-state m cleanup s))
          (Frame-trans first (q.at (m s).1 (first.same_site ∙ e)));
  }

module _ {P : Request → Type 0} {x : Site} where
  pub Does-send : (env : Env) (r : Request) → P r → Does P x (send env r)
  unfolding send
  Does-send env r h = record {
    at = λ s e. record { same_site = refl; same_depth = refl; sent = more h here };
  }

pub Does-mono :
    {P Q : Request → Type 0} {x : Site} {A : Type 0} {m : Exec Session A}
    → ((r : Request) → P r → Q r)
    → Does P x m
    → Does Q x m
Does-mono f d = record {
  at = λ s e. record {
    same_site = (d.at s e).same_site;
    same_depth = (d.at s e).same_depth;
    sent = Sent-mono f (d.at s e).sent;
  };
}

pub ruleset does_rules = (Does-pure, Does-raise, Does-lift, Does-gets, Does-if, Does-try, Does-bind)
