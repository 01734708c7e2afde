-- ===== src/Protocol/Tracking.antt =====
-- An executor's view of a connection: which timer tokens it holds armed after performing a list of
-- effects, what each effect names, and what it admits.
pub mod Send
pub mod Ending
pub mod Watch
pub mod Closing
pub mod Handshake
pub mod Results
pub mod Receive
pub mod Dispatch
pub mod Handle
use go_diameter.Prelude.{
  ℕ, zero, suc, ◌≡◌, refl, Bool, true, false, ◌&&◌, ◌++◌, List, [], ◌∷◌, sym, ◌∙◌, ap, arith,
}
use go_diameter.Prelude.Tests.{◌==◌, if◌then◌else◌, maybe}
use go_diameter.Prelude.Lists.{All, modify_last, modify}
use go_diameter.Prelude.Maps.{update}
use go_diameter.Prelude.Int.{ℤ}
use mathlib.Core.Option.{Option, none, some}
use go_diameter.Diam.Error.{Err}
use go_diameter.Base.Settings.{Checked, ok, bad, checked}
use go_diameter.Protocol.Types.{EffectKind, Connection, Notification, TimerSnapshot}
use go_diameter.Protocol.Core.{Core, St, Effect, Control, upd, token, effect, emit, set_control}

-- What performing an effect does to the armed token of timer `k`: arming sets it, stopping clears
-- the token that it names, and nothing else touches it.
abbrev pub perform_kind : EffectKind → Bool → ℕ → ℕ → ℕ
unfolding if◌then◌else◌
perform_kind EffectKind.arm_timer here t old = if here then t else old
perform_kind EffectKind.stop_timer here t old = if here && t == old then 0 else old
perform_kind _ here t old = old

abbrev pub perform : ℕ → Effect → ℕ → ℕ
perform k e old = perform_kind e.kind (e.timer == k) e.token old

-- The token that the executor holds for timer `k` after a list of effects.
abbrev pub armed : ℕ → List Effect → ℕ → ℕ
armed k [] old = old
armed k (e ∷ es) old = armed k es (perform k e old)

-- Effects that neither arm nor stop a timer nor admit a message.
abbrev is_plain : EffectKind → Bool
is_plain EffectKind.arm_timer = false
is_plain EffectKind.stop_timer = false
is_plain EffectKind.admit = false
is_plain _ = true

pub armed-append :
    (k : ℕ) (es : List Effect) (e : Effect) (old : ℕ)
    → armed k (es ++ (e ∷ [])) old ≡ perform k e (armed k es old)
armed-append k [] e old = refl
armed-append k (x ∷ es) e old = armed-append k es e (perform k x old)

pub perform_plain : (k : ℕ) (e : Effect) (old : ℕ) → is_plain e.kind ≡ true → perform k e old ≡ old
unfolding if◌then◌else◌
perform_plain k e old p = ground arith

armed-modify_last :
    (k : ℕ) (f : Effect → Effect)
    → ((e : Effect) (old : ℕ) → perform k (f e) old ≡ perform k e old)
    → (es : List Effect) (old : ℕ) → armed k (modify_last f es) old ≡ armed k es old
armed-modify_last k f h [] old = refl
armed-modify_last k f h (e ∷ []) old = h e old
armed-modify_last k f h (e ∷ x ∷ es) old = armed-modify_last k f h (x ∷ es) (perform k e old)

pub All-append {ℓ} :
    {A : Type 0} (P : A → Type ℓ) (xs : List A) (x : A) → All P xs → P x → All P (xs ++ (x ∷ []))
All-append P [] x hs h = (h, tt)
All-append P (y ∷ xs) x hs h = (hs.0, All-append P xs x hs.1 h)

All-modify_last {ℓ} :
    {A : Type 0} (P : A → Type ℓ) (f : A → A)
    → ((a : A) → P a → P (f a))
    → (xs : List A) → All P xs
    → All P (modify_last f xs)
All-modify_last P f h [] hs = hs
All-modify_last P f h (x ∷ []) hs = (h x hs.0, hs.1)
All-modify_last P f h (x ∷ y ∷ xs) hs = (hs.0, All-modify_last P f h (y ∷ xs) hs.1)

armed-modify :
    (k : ℕ) (f : Effect → Effect)
    → ((e : Effect) (old : ℕ) → perform k (f e) old ≡ perform k e old)
    → (i : ℕ) (es : List Effect) (old : ℕ) → armed k (modify f i es) old ≡ armed k es old
armed-modify k f h i [] old = refl
armed-modify k f h zero (e ∷ es) old = ap (armed k es) (h e old)
armed-modify k f h (suc i) (e ∷ es) old = armed-modify k f h i es (perform k e old)

All-modify {ℓ} :
    {A : Type 0} (P : A → Type ℓ) (f : A → A)
    → ((a : A) → P a → P (f a))
    → (i : ℕ) (xs : List A) → All P xs
    → All P (modify f i xs)
All-modify P f h i [] hs = hs
All-modify P f h zero (x ∷ xs) hs = (h x hs.0, hs.1)
All-modify P f h (suc i) (x ∷ xs) hs = (hs.0, All-modify P f h i xs hs.1)

-- What a run is held against: the connection, what excuses an admission, and the timers that the
-- executor held at its start.
pub record View : Type 1 where
  pub conn : Connection
  pub Allowed : Type 0
  pub start : ℕ → ℕ

-- The connection stays the view's, every effect so far names it, an admission is excused, and the
-- timers that an executor holds, starting from the view's, are those of the connection.
pub record Tracks (v : View) (s : St) : Type 0 where
  pub same : s.core.cfg.connection ≡ v.conn
  pub named : All (λ e. e.connection ≡ v.conn) s.out
  pub gated : All (λ e. e.kind ≡ EffectKind.admit → v.Allowed) s.out
  pub mirror : (k : ℕ) → armed k s.out (v.start k) ≡ (s.core.timers k).token

module _ {v : View} where
  -- Assignments that leave the timers, the connection and the effects alone.
  pub same-Tracks :
      {s t : St}
      → t.core.timers ≡ s.core.timers
      → t.core.cfg.connection ≡ s.core.cfg.connection
      → t.out ≡ s.out
      → Tracks v s
      → Tracks v t
  same-Tracks t c o h = record {
    same = c ∙ h.same;
    named = rw o h.named;
    gated = rw o h.gated;
    mirror = λ k. ap (λ es. armed k es (v.start k)) o ∙ h.mirror k ∙ ap (λ g. (g k).token) (sym t);
  }

  pub emit-Tracks :
      (e : Effect) (s : St)
      → is_plain e.kind ≡ true
      → e.connection ≡ v.conn
      → Tracks v s
      → Tracks v (emit e s)
  unfolding emit
  emit-Tracks e s p c h = record {
    same = h.same;
    named = All-append _ s.out e h.named c;
    gated = All-append _ s.out e h.gated (λ a. ground arith);
    mirror = λ k. armed-append k s.out e (v.start k) ∙ perform_plain k e _ p ∙ h.mirror k;
  }

  pub admit-Tracks :
      (e : Effect) (s : St)
      → e.kind ≡ EffectKind.admit
      → e.connection ≡ v.conn
      → v.Allowed
      → Tracks v s
      → Tracks v (emit e s)
  unfolding emit if◌then◌else◌
  admit-Tracks e s p c g h = record {
    same = h.same;
    named = All-append _ s.out e h.named c;
    gated = All-append _ s.out e h.gated (λ a. g);
    mirror = λ k.
        armed-append k s.out e (v.start k)
        ∙ ap (λ x. perform_kind x (e.timer == k) e.token (armed k s.out (v.start k))) p
        ∙ h.mirror k;
  }

  -- A change of the last effect's other fields.
  pub modify_last-Tracks :
      (f : Effect → Effect) (s : St)
      → ((e : Effect) → (f e).kind ≡ e.kind)
      → ((e : Effect) → (f e).connection ≡ e.connection)
      → ((e : Effect) → (f e).timer ≡ e.timer)
      → ((e : Effect) → (f e).token ≡ e.token)
      → Tracks v s
      → Tracks v (record s { out = modify_last f s.out })
  modify_last-Tracks f s fk fc ft fn h = record {
    same = h.same;
    named = All-modify_last _ f (λ e p. fc e ∙ p) s.out h.named;
    gated = All-modify_last _ f (λ e p q. p (sym (fk e) ∙ q)) s.out h.gated;
    mirror =
        λ k. armed-modify_last k f (λ e old. cc (fk e, ft e, fn e)) s.out (v.start k) ∙ h.mirror k;
  }

  -- The same at one place among the effects.
  pub modify-Tracks :
      (f : Effect → Effect) (i : ℕ) (s : St)
      → ((e : Effect) → (f e).kind ≡ e.kind)
      → ((e : Effect) → (f e).connection ≡ e.connection)
      → ((e : Effect) → (f e).timer ≡ e.timer)
      → ((e : Effect) → (f e).token ≡ e.token)
      → Tracks v s
      → Tracks v (record s { out = modify f i s.out })
  modify-Tracks f i s fk fc ft fn h = record {
    same = h.same;
    named = All-modify _ f (λ e p. fc e ∙ p) i s.out h.named;
    gated = All-modify _ f (λ e p q. p (sym (fk e) ∙ q)) i s.out h.gated;
    mirror =
        λ k. armed-modify k f (λ e old. cc (fk e, ft e, fn e)) i s.out (v.start k) ∙ h.mirror k;
  }

  pub if-Tracks :
      (b : Bool) (x y : St)
      → (b ≡ true → Tracks v x)
      → (b ≡ false → Tracks v y)
      → Tracks v (if b then x else y)
  unfolding if◌then◌else◌
  if-Tracks true x y hx hy = hx refl
  if-Tracks false x y hx hy = hy refl

  pub maybe-Tracks :
      {A : Type 0} (o : Option A) (x : St) (f : A → St)
      → Tracks v x
      → ((a : A) → o ≡ some a → Tracks v (f a))
      → Tracks v (maybe o x f)
  unfolding maybe
  maybe-Tracks none x f hx hf = hx
  maybe-Tracks (some a) x f hx hf = hf a refl

  pub checked-Tracks :
      {A : Type 0} (c : Checked A) (f : Err → St) (g : A → St)
      → ((e : Err) → Tracks v (f e))
      → ((a : A) → Tracks v (g a))
      → Tracks v (checked c f g)
  unfolding checked
  checked-Tracks (bad e) f g hf hg = hf e
  checked-Tracks (ok a) f g hf hg = hg a
