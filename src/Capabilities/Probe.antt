-- ===== src/Capabilities/Probe.antt =====
-- The self-probe of the admission gate, and the verdicts that rest on it.
use agentic_memory_stack_for.Prelude.{◌≡◌, refl, true, false, none, some, [], ◌∷◌}
use agentic_memory_stack_for.Prelude.Text.{
  mem, strip, lower, lstrip, rstrip, is_space, space_code, lower_char, translate,
}
use agentic_memory_stack_for.Prelude.Dict.{get}
use agentic_memory_stack_for.Payload.{text, field, text_or_empty, value_text, scalar_text}
use agentic_memory_stack_for.Admission.Policy.{
  Floats, Settings, Clock, default_policy_for_class, evaluate, tier_disallowed,
  brand_scope_required, tier_reason, stamp_reason, scope_reason, class_reason, stamp_hides,
  request_brand, result_brand, opts_in,
}
use agentic_memory_stack_for.Capabilities.States.{alive}
use agentic_memory_stack_for.Capabilities.Signals.{
  admission_probe_state, tier_policy_state, rejected_state,
}
use agentic_memory_stack_for.Capabilities.Manifest.{admission_selfprobe, probe_hit}

evidence_admitted : mem "evidence" ("stable" ∷ "evidence" ∷ "insight" ∷ []) ≡ true
unfolding mem
evidence_admitted = refl

module _ (floats : Floats) (settings : Settings floats.F) (clock : Clock) where
  canonical_rejected :
      evaluate floats clock
        (default_policy_for_class settings "durable")
        (probe_hit "selfprobe-canonical" (("tier", text "canonical") ∷ []))
        []
        "durable"
        none
      ≡ some tier_disallowed
  unfolding evaluate default_policy_for_class tier_reason field get mem lower lower_char translate
  canonical_rejected = refl

  branded_rejected :
      mem "selfprobe-brand" settings.shared ≡ false
      → evaluate floats clock
          (default_policy_for_class settings "durable")
          (probe_hit "selfprobe-branded"
            (("tier", text "evidence") ∷ ("brand", text "selfprobe-brand") ∷ []))
          []
          "durable"
          none
        ≡ some brand_scope_required
  unfolding evaluate default_policy_for_class tier_reason stamp_reason stamp_hides scope_reason
      request_brand result_brand opts_in field get lower lower_char translate strip lstrip rstrip
      is_space space_code text_or_empty value_text scalar_text
  branded_rejected h = rw (h, evidence_admitted) refl

  neutral_admitted :
      evaluate floats clock
        (default_policy_for_class settings "durable")
        (probe_hit "selfprobe-neutral" (("tier", text "evidence") ∷ []))
        []
        "durable"
        none
      ≡ none
  unfolding evaluate default_policy_for_class tier_reason stamp_reason stamp_hides scope_reason
      class_reason request_brand result_brand opts_in field get mem lower lower_char translate strip
      lstrip rstrip is_space space_code text_or_empty value_text scalar_text
  neutral_admitted = refl

  -- When the probe's brand is no shared one, the self-probe of the admission gate succeeds: the
  -- canonical record and the branded record are rejected, the neutral one is admitted, and the
  -- rows that read it are alive.
  admission_selfprobe-ok :
      mem "selfprobe-brand" settings.shared ≡ false
      → let p = admission_selfprobe floats settings clock in
        (p.ok ≡ true)
        × (admission_probe_state (some p) ≡ alive)
        × (tier_policy_state (some p) ≡ alive)
        × (p.brand_rejected ≡ some true)
  unfolding admission_selfprobe admission_probe_state tier_policy_state rejected_state
  admission_selfprobe-ok h =
      rw (canonical_rejected, branded_rejected h, neutral_admitted) (refl, refl, refl, refl)
