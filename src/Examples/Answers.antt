-- ===== src/Examples/Answers.antt =====
-- The theorems on answers and on the lookups, at a request with one Proxy-Info.
use go_diameter.Prelude.{◌≡◌, ◌+◌, ◌++◌, refl, true, ◌&&◌, some, [], ◌∷◌}
use go_diameter.Prelude.Tests.{leb, ltb, if◌then◌else◌}
use go_diameter.Prelude.Lists.{get_elem?}
use go_diameter.Diam.Avp.{Avp, avp, unknown_data}
use go_diameter.Diam.Header.{has_flag, proxiable_flag, error_flag}
use go_diameter.Diam.Codec.{serialize_to}
use go_diameter.Diam.Edit.{is_avp}
use go_diameter.Diam.Edit.Lengths.{HasLength}
use go_diameter.Diam.Grammar.Scan.{is_echoed_proxy}
use go_diameter.Diam.Answer.{answer}
use go_diameter.Diam.Answer.Laws.{own_avps, echoes_of, answer_echoes, answer-is_echoed_proxy}
use go_diameter.Examples.{request_header}

-- A Proxy-Info with a reserved bit, which the copy has not.
abbrev proxy : Avp
proxy = avp 284 0x41 12 0 (unknown_data (1 ∷ 2 ∷ 3 ∷ 4 ∷ []))

abbrev copied : Avp
copied = avp 284 0x40 12 0 (unknown_data (1 ∷ 2 ∷ 3 ∷ 4 ∷ []))

answer_echoes_example :
    let r = answer 0 0 request_header (proxy ∷ []) 0 3002 in
    (r.avps ≡ own_avps 3002 ++ echoes_of (proxy ∷ []))
    × HasLength (record { message_length = r.header.message_length; avps = r.avps })
    × (r.header.command_flags
        ≡ (if has_flag request_header.command_flags proxiable_flag then proxiable_flag else 0)
          + (if leb 3000 3002 && ltb 3002 4000 then error_flag else 0))
    × (r.header.command_code ≡ request_header.command_code)
    × (r.header.application_id ≡ request_header.application_id)
    × (r.header.hop_by_hop_id ≡ request_header.hop_by_hop_id)
    × (r.header.end_to_end_id ≡ request_header.end_to_end_id)
answer_echoes_example = answer_echoes 0 0 request_header (proxy ∷ []) 0 3002

second_copied : get_elem? (answer 0 0 request_header (proxy ∷ []) 0 3002).avps 1 ≡ some copied
unfolding answer
second_copied = refl

copied_octets : serialize_to copied ≡ some (0 ∷ 0 ∷ 1 ∷ 28 ∷ 0x40 ∷ 0 ∷ 0 ∷ 12 ∷ 1 ∷ 2 ∷ 3 ∷ 4 ∷ [])
unfolding serialize_to
copied_octets = refl

answer-is_echoed_proxy_example :
    is_echoed_proxy (answer 0 0 request_header (proxy ∷ []) 0 3002).echoed_proxy_info 1 copied
    ≡ true
unfolding is_avp
answer-is_echoed_proxy_example =
    answer-is_echoed_proxy 0 0 request_header (proxy ∷ []) 0 3002 1 copied
      (0 ∷ 0 ∷ 1 ∷ 28 ∷ 0x40 ∷ 0 ∷ 0 ∷ 12 ∷ 1 ∷ 2 ∷ 3 ∷ 4 ∷ []) second_copied refl copied_octets
