-- ===== src/Protocol/Admission/Laws.antt =====
-- New connections, and what the frontend's claims let through.
use go_diameter.Prelude.{ℕ, true, ◌≡◌, ◌≢◌, none, some, inl, inr, arith}
use go_diameter.Prelude.Tests.{if◌then◌else◌, maybe}
use go_diameter.Prelude.Lists.{get_elem?}
use go_diameter.Base.Interface.{Base}
use go_diameter.Protocol.Types.{EffectKind, Phase, Input}
use go_diameter.Protocol.Core.{Core, Effect}
use go_diameter.Protocol.Handle.{handle}
use go_diameter.Protocol.Executor.{at_rest, handle_admits}
use go_diameter.Protocol.Admission.{revoke, refresh_admission}

revoked-phase :
    (b : Base) (c : Core)
    → c.passive_responder ≡ true
    → (refresh_admission b none c).phase ≢ Phase.opened
unfolding refresh_admission revoke if◌then◌else◌ maybe
revoked-phase b c p e = ground arith

revoked-closing :
    (b : Base) (c : Core)
    → (refresh_admission b none c).phase ≡ Phase.closing
    → c.phase ≡ Phase.closing
unfolding refresh_admission revoke if◌then◌else◌ maybe
revoked-closing b c e = ground arith

-- Once the frontend has revoked the claims of an externally admitted connection that is not closing,
-- handling an input admits no message: no effect of it is an admission.
pub revoked_admits :
    (b : Base) (inp : Input) (c : Core) (i : ℕ) (e : Effect)
    → c.passive_responder ≡ true
    → c.phase ≢ Phase.closing
    → get_elem? (handle b inp (at_rest (refresh_admission b none c))).out i ≡ some e
    → e.kind ≢ EffectKind.admit
revoked_admits b inp c i e p n h a =
    elim (handle_admits b inp (refresh_admission b none c) i e h a).1 [
      | inl o ↦ revoked-phase b c p o.0
      | inr q ↦ n (revoked-closing b c q)
    ]
