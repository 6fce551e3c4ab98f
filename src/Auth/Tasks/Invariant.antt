-- ===== src/Auth/Tasks/Invariant.antt =====
-- What holds in every system that tasks can reach.
use sonicwall_sdk.Prelude.{
  ℕ, ◌+◌, ◌≤◌, String, Bool, true, false, Option, none, some, if◌then◌else◌, is_some, ◌≡◌, refl,
  sym, ap, arith,
}
use sonicwall_sdk.Json.Value.{nonempty}
use sonicwall_sdk.Transport.{AuthManager}
use sonicwall_sdk.Auth.Manager.{is_authenticated}
use sonicwall_sdk.Auth.Tasks.{
  Phase, System, Event, move, begin, release, clear, accept, advance, Reach, ensure, reauthenticate,
  logout, acquire, give_up, acquire_again, give_up_again, challenge, no_challenge, token, no_token,
  deleted, start, next,
}

-- The task is in the middle of `authenticate`.
abbrev pub posting : Phase → Bool
posting Phase.challenged = true
posting Phase.answered = true
posting _ = false

abbrev pub flag : Bool → ℕ
flag true = 1
flag false = 0

-- The lock is held exactly by the task that is in the middle of `authenticate`; while it is, there
-- is no login; and each token that was stored, but the one in force, was dropped.
pub record Inv (s : System) : Type 0 where
  pub held : (i : ℕ) → posting (s.phase i) ≡ true → s.lock ≡ some i
  pub used : (i : ℕ) → s.lock ≡ some i → posting (s.phase i) ≡ true
  pub out : (i : ℕ) → s.lock ≡ some i → is_authenticated s.auth ≡ false
  pub counted : s.logins ≤ s.drops + flag (is_authenticated s.auth)

module _ {s : System} (inv : Inv s) (i : ℕ) where
  move-Inv : (p : Phase) → posting p ≡ posting (s.phase i) → Inv (move i p s)
  move-Inv p h = record {
    held = λ j q. grind (arith, inv.held j);
    used = λ j q. grind (arith, inv.used j);
    out = inv.out;
    counted = inv.counted;
  }

  begin-Inv : s.lock ≡ none → is_authenticated s.auth ≡ false → Inv (begin i s)
  begin-Inv h n = record {
    held = λ j q. grind (arith, inv.held j);
    used = λ j q. grind (arith);
    out = λ j q. n;
    counted = inv.counted;
  }

  release-Inv : posting (s.phase i) ≡ true → Inv (release i s)
  release-Inv h = record {
    held = λ j q. grind (arith, inv.held j, inv.held i);
    used = λ j q. grind arith;
    out = λ j q. grind arith;
    counted = inv.counted;
  }

  accept-Inv : posting (s.phase i) ≡ true → (t : String) → Inv (release i (accept t s))
  unfolding is_authenticated
  accept-Inv h t = record {
    held = λ j q. grind (arith, inv.held j, inv.held i);
    used = λ j q. grind arith;
    out = λ j q. grind arith;
    counted = ground (arith, inv.counted, inv.out i (inv.held i h));
  }

pub flag-le : (b : Bool) → flag b ≤ 1
flag-le true = omega arith
flag-le false = omega arith

clear-Inv : {s : System} → Inv s → Inv (clear s)
unfolding is_authenticated
clear-Inv {s} inv = record {
  held = inv.held;
  used = inv.used;
  out = λ j q. refl;
  counted = ground (arith, inv.counted);
}

if-Inv :
    (b : Bool) {s t : System} → (b ≡ true → Inv s) → (b ≡ false → Inv t) → Inv (if b then s else t)
if-Inv true f g = f refl
if-Inv false f g = g refl

unlocked : (o : Option ℕ) → is_some o ≡ false → o ≡ none
unlocked none h = refl
unlocked (some i) h = cc

advance-Inv :
    {p : Phase} (e : Event p) (i : ℕ) (s : System) → s.phase i ≡ p → Inv s → Inv (advance e i s)
unfolding advance is_authenticated
advance-Inv ensure i s h inv =
    if-Inv (is_authenticated s.auth) (λ _. inv) (λ _. move-Inv inv i _ (ap posting (sym h)))
advance-Inv reauthenticate i s h inv = move-Inv inv i _ (ap posting (sym h))
advance-Inv logout i s h inv =
    if-Inv (is_authenticated s.auth) (λ _. move-Inv inv i _ (ap posting (sym h))) (λ _. inv)
advance-Inv acquire i s h inv =
    if-Inv (is_some s.lock) (λ _. inv)
      (λ free.
        if-Inv (is_authenticated s.auth) (λ _. move-Inv inv i _ (ap posting (sym h)))
          (λ n. begin-Inv inv i (unlocked s.lock free) n))
advance-Inv give_up i s h inv = move-Inv inv i _ (ap posting (sym h))
advance-Inv acquire_again i s h inv =
    if-Inv (is_some s.lock) (λ _. inv)
      (λ free. begin-Inv (clear-Inv inv) i (unlocked s.lock free) refl)
advance-Inv give_up_again i s h inv = move-Inv inv i _ (ap posting (sym h))
advance-Inv challenge i s h inv = move-Inv inv i _ (ap posting (sym h))
advance-Inv no_challenge i s h inv = release-Inv inv i (ap posting h)
advance-Inv (token t) i s h inv =
    if-Inv (nonempty (some t)) (λ _. accept-Inv inv i (ap posting h) t)
      (λ _. release-Inv inv i (ap posting h))
advance-Inv no_token i s h inv = release-Inv inv i (ap posting h)
advance-Inv deleted i s h inv = move-Inv (clear-Inv inv) i _ (ap posting (sym h))

pub Reach-Inv : {a : AuthManager} {s : System} → Reach a s → Inv s
Reach-Inv start = record {
  held = λ i h. cc;
  used = λ i h. cc;
  out = λ i h. cc;
  counted = omega arith;
}
Reach-Inv (next {s} r i e) = advance-Inv e i s refl (Reach-Inv r)
