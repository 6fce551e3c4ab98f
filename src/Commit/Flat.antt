-- ===== src/Commit/Flat.antt =====
-- Nested contexts inside a transaction.
use sonicwall_sdk.Prelude.{◌+◌, ◌<◌, ◌≡◌, refl, sym, ap, ◌∙◌, arith, inl, inr}
use sonicwall_sdk.Errors.{Result}
use sonicwall_sdk.Errors.Classes.{Result-cases}
use sonicwall_sdk.Exec.{Exec, ◌>>=◌, ◌>>◌}
use sonicwall_sdk.Transport.{Env, Session}
use sonicwall_sdk.Transport.Blind.{at_depth, IsBlind, IsBlind-bind, IsBlind-depth}
use sonicwall_sdk.Commit.{pending, aenter, leave}
use sonicwall_sdk.Commit.Transaction.{deeper, pending_nested, pending_of_enter, pending_not_entered}
use sonicwall_sdk.Commit.Outermost.{depth-aenter}

module _ {A : Type 0} (env : Env) (body : Exec Session A) (blind : IsBlind body) (s : Session) where
  -- Inside another context, a context around a blind body is nothing but the body.
  pending_inside : 0 < s.depth → pending env body s ≡ body s
  pending_inside h =
      pending_nested env body s h (IsBlind-depth body blind (deeper s))
      ∙ ap (λ (p : Result A × Session). (p.0, at_depth s.depth p.1)) (blind s (s.depth + 1))
      ∙ sym (blind s s.depth)

-- What a transaction does: actions that have nothing to do with the counter, one after the other, and
-- contexts inside.
pub data Script : Type 0 where
  act : (m : Exec Session (Unit {0})) → IsBlind m → Script
  seq : Script → Script → Script
  nest : Script → Script

-- With its contexts.
pub nested : Env → Script → Exec Session (Unit {0})
nested env (act m _) = m
nested env (seq a b) = do nested env a; nested env b
nested env (nest a) = pending env (nested env a)

-- Without them.
pub flat : Script → Exec Session (Unit {0})
flat (act m _) = m
flat (seq a b) = do flat a; flat b
flat (nest a) = flat a

flat-IsBlind : (script : Script) → IsBlind (flat script)
unfolding flat
flat-IsBlind (act m b) = b
flat-IsBlind (seq a b) = IsBlind-bind _ _ (flat-IsBlind a) (λ _. flat-IsBlind b)
flat-IsBlind (nest a) = flat-IsBlind a

module _ (env : Env) where
  >>-same :
      (a a' b b' : Exec Session (Unit {0})) (s : Session)
      → a s ≡ a' s
      → b (a' s).1 ≡ b' (a' s).1
      → (a >> b) s ≡ (a' >> b') s
  unfolding ◌>>=◌
  >>-same a a' b b' s p q = elim (Result-cases (a' s).0) [
    | inl (_, e) ↦ rw p (rw e q)
    | inr (x, e) ↦ rw p (rw e refl)
  ]

  nested-eq-flat :
      (script : Script) (s : Session) → 0 < s.depth → nested env script s ≡ flat script s
  unfolding nested flat
  nested-eq-flat (act m b) s h = refl
  nested-eq-flat (seq a b) s h =
      >>-same (nested env a) (flat a) (nested env b) (flat b) s (nested-eq-flat a s h)
        (nested-eq-flat b (flat a s).1 (grind (arith, IsBlind-depth (flat a) (flat-IsBlind a) s)))
  nested-eq-flat (nest a) s h =
      let inner = nested-eq-flat a (deeper s) (omega arith) in
      pending_nested env (nested env a) s h (
        ap (λ (p : Result (Unit {0}) × Session). p.1.depth) inner
        ∙ IsBlind-depth (flat a) (flat-IsBlind a) (deeper s))
      ∙ ap (λ (p : Result (Unit {0}) × Session). (p.0, at_depth s.depth p.1)) inner
      ∙ sym (pending_nested env (flat a) s h (IsBlind-depth (flat a) (flat-IsBlind a) (deeper s)))
      ∙ pending_inside env (flat a) (flat-IsBlind a) s h

  -- A transaction with contexts inside, however they are nested, sends what the transaction without
  -- them sends, gives its result and leaves its session, from every session, if its actions have
  -- nothing to do with the depth counter.
  pub pending-flat :
      (script : Script) (s : Session)
      → pending env (nested env script) s ≡ pending env (flat script) s
  pending-flat script s = elim (Result-cases (aenter env s).0) [
    | inl (entered, p) ↦
        pending_of_enter env (nested env script) s p
        ∙ ap (λ (q : Result (Unit {0}) × Session). (let (r, t) = q in leave env entered r t))
            (nested-eq-flat script (aenter env s).1 (grind (arith, depth-aenter env s)))
        ∙ sym (pending_of_enter env (flat script) s p)
    | inr (x, p) ↦
        pending_not_entered env (nested env script) s p
        ∙ sym (pending_not_entered env (flat script) s p)
  ]
