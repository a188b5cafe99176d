-- ===== src/NewTask/Routing/Shown.antt =====
-- A routing that is in effect can always be switched off.
use modelshelf.Common.{
  String, Bool, true, false, not, ◌&&◌, ◌||◌, Option, none, get_or, truthy?, ◌≡◌, refl, sym, subst,
  arith, Bool-cases, inl, inr, str_eq,
}
use modelshelf.Queue.Page.{Reply, ok, failed_with}
use modelshelf.NewTask.Form.{
  ParsedUrl, Inputs, Control, choose_provider, type_url, pick_model, type_revision, pick_revision,
  toggle_temporary_mirror, type_mirror, toggle_mirror, toggle_proxy, edit,
}
use modelshelf.NewTask.Estimate.{
  Preflight, EstimateReply, estimated, aborted, refused, controlled, default_loaded, timer_fired,
  estimate_replied, estimate_refused, settled, rendered, inputs_effect, invalidate_estimate,
}
use modelshelf.NewTask.Routing.{
  Network, Page, info_replied, offered, supports_mirror, configured_mirror, proxy_configured,
  shows_routing, mirror_of, has_proxy, Reach, at_first, used, revision_loaded, timer, replied,
  informed,
}

-- What is in effect is offered, for the routing of these inputs and this network.
record Sound (f : Inputs) (network : Option Network) (due : Bool) : Type 0 where
  temporary : f.use_temporary_mirror ≡ true → supports_mirror f.provider ≡ true
  bypassed :
      f.disable_mirror ≡ true
      → ((supports_mirror f.provider || has_proxy network)
          && truthy? (mirror_of network f.provider)
          && not f.use_temporary_mirror)
        ≡ true
  direct : f.disable_proxy ≡ true → has_proxy network ≡ true
  unknown : due ≡ true → network ≡ none

module _ (parse_url : String → Option ParsedUrl) where
  inputs-inputs_effect : (st : Preflight) → (inputs_effect parse_url st).inputs ≡ st.inputs
  unfolding inputs_effect invalidate_estimate
  inputs-inputs_effect st = ground arith

  inputs-controlled :
      (c : Control) (st : Preflight)
      → (controlled parse_url c st).inputs ≡ get_or (edit c st.inputs) st.inputs
  unfolding controlled rendered inputs_effect invalidate_estimate
  inputs-controlled c st = ground arith

  Sound-edit :
      (c : Control) (p : Page)
      → offered c p ≡ true
      → Sound p.preflight.inputs p.network p.info_due
      → Sound (get_or (edit c p.preflight.inputs) p.preflight.inputs) p.network p.info_due
  unfolding edit offered configured_mirror proxy_configured shows_routing
  Sound-edit (choose_provider v) p h s = record {
    temporary = λ e. ground (arith, e, h, s.temporary);
    bypassed = λ e. ground (arith, e, h, s.bypassed);
    direct = λ e. ground (arith, e, h, s.direct);
    unknown = s.unknown;
  }
  Sound-edit (type_url v) p h s = record {
    temporary = λ e. ground (arith, e, h, s.temporary);
    bypassed = λ e. ground (arith, e, h, s.bypassed);
    direct = λ e. ground (arith, e, h, s.direct);
    unknown = s.unknown;
  }
  Sound-edit (pick_model v) p h s = record {
    temporary = λ e. ground (arith, e, h, s.temporary);
    bypassed = λ e. ground (arith, e, h, s.bypassed);
    direct = λ e. ground (arith, e, h, s.direct);
    unknown = s.unknown;
  }
  Sound-edit (type_revision v) p h s = record {
    temporary = λ e. ground (arith, e, h, s.temporary);
    bypassed = λ e. ground (arith, e, h, s.bypassed);
    direct = λ e. ground (arith, e, h, s.direct);
    unknown = s.unknown;
  }
  Sound-edit (pick_revision v) p h s = record {
    temporary = λ e. ground (arith, e, h, s.temporary);
    bypassed = λ e. ground (arith, e, h, s.bypassed);
    direct = λ e. ground (arith, e, h, s.direct);
    unknown = s.unknown;
  }
  Sound-edit (toggle_temporary_mirror v) p h s = record {
    temporary = λ e. ground (arith, e, h, s.temporary);
    bypassed = λ e. ground (arith, e, h, s.bypassed);
    direct = λ e. ground (arith, e, h, s.direct);
    unknown = s.unknown;
  }
  Sound-edit (type_mirror v) p h s = record {
    temporary = λ e. ground (arith, e, h, s.temporary);
    bypassed = λ e. ground (arith, e, h, s.bypassed);
    direct = λ e. ground (arith, e, h, s.direct);
    unknown = s.unknown;
  }
  Sound-edit (toggle_mirror v) p h s = record {
    temporary = λ e. ground (arith, e, h, s.temporary);
    bypassed = λ e. ground (arith, e, h, s.bypassed);
    direct = λ e. ground (arith, e, h, s.direct);
    unknown = s.unknown;
  }
  Sound-edit (toggle_proxy v) p h s = record {
    temporary = λ e. ground (arith, e, h, s.temporary);
    bypassed = λ e. ground (arith, e, h, s.bypassed);
    direct = λ e. ground (arith, e, h, s.direct);
    unknown = s.unknown;
  }

  Sound-default_loaded :
      (revision : String) (p : Page)
      → Sound p.preflight.inputs p.network p.info_due
      → Sound (default_loaded parse_url revision p.preflight).inputs p.network p.info_due
  unfolding default_loaded
  Sound-default_loaded revision p s =
      elim (Bool-cases
        (p.preflight.inputs.revision_edited || str_eq p.preflight.inputs.revision revision)) [
          | inl kept ↦ rw kept s
          | inr new ↦
              rw
                (
                  new,
                  inputs-inputs_effect (record (p.preflight) {
                    inputs = record (p.preflight.inputs) { revision = revision };
                  }),
                )
                (record {
                  temporary = s.temporary;
                  bypassed = s.bypassed;
                  direct = s.direct;
                  unknown = s.unknown;
                })
        ]

  inputs-timer_fired : (st : Preflight) → (timer_fired st).inputs ≡ st.inputs
  unfolding timer_fired
  inputs-timer_fired st = ground arith

  inputs-replied :
      (f : Inputs) (reply : EstimateReply) (st : Preflight)
      → (settled (estimate_replied f reply st)).inputs ≡ st.inputs
  unfolding settled estimate_replied estimate_refused
  inputs-replied f (estimated e) st = refl
  inputs-replied f aborted st = refl
  inputs-replied f (refused message) st = refl

  abbrev SoundPage : Page → Type 0
  SoundPage p = Sound p.preflight.inputs p.network p.info_due

  Sound-informed :
      (p : Page) (reply : Reply (Option Network))
      → p.info_due ≡ true
      → Sound p.preflight.inputs p.network p.info_due
      → SoundPage (info_replied reply p)
  unfolding info_replied
  Sound-informed p (ok network) due s = record {
    temporary = s.temporary;
    bypassed = λ e. ground (arith, e, s.bypassed, s.unknown, due);
    direct = λ e. ground (arith, e, s.direct, s.unknown, due);
    unknown = λ e. ground (arith, e);
  }
  Sound-informed p (failed_with message) due s = record {
    temporary = s.temporary;
    bypassed = λ e. ground (arith, e, s.bypassed, s.unknown, due);
    direct = λ e. ground (arith, e, s.direct, s.unknown, due);
    unknown = λ e. refl;
  }

  Reach-Sound : (p : Page) → Reach parse_url p → SoundPage p
  Reach-Sound _ at_first = record {
    temporary = λ e. ground (arith, e);
    bypassed = λ e. ground (arith, e);
    direct = λ e. ground (arith, e);
    unknown = λ e. refl;
  }
  Reach-Sound _ (used p c h r) =
      subst (λ f. Sound f p.network p.info_due) (sym (inputs-controlled c p.preflight))
        (Sound-edit c p h (Reach-Sound p r))
  Reach-Sound _ (revision_loaded p revision r) = Sound-default_loaded revision p (Reach-Sound p r)
  Reach-Sound _ (timer p r) =
      subst (λ f. Sound f p.network p.info_due) (sym (inputs-timer_fired p.preflight))
        (Reach-Sound p r)
  Reach-Sound _ (replied p f reply r) =
      subst (λ g. Sound g p.network p.info_due) (sym (inputs-replied f reply p.preflight))
        (Reach-Sound p r)
  Reach-Sound _ (informed p reply due r) = Sound-informed p reply due (Reach-Sound p r)

  -- However the user fills in the form, whenever the server's network and the default revision become
  -- known and the estimates reply: a temporary mirror, the bypass of a mirror and the bypass of the
  -- proxy are in effect only where the control that switches it off is there; and the panel with these
  -- controls is there then.
  pub Reach-offered :
      (p : Page)
      → Reach parse_url p
      → let f = p.preflight.inputs in
        (f.use_temporary_mirror ≡ true → offered (toggle_temporary_mirror false) p ≡ true)
        × (f.disable_mirror ≡ true → offered (toggle_mirror false) p ≡ true)
        × (f.disable_proxy ≡ true → offered (toggle_proxy false) p ≡ true)
        × ((f.use_temporary_mirror || f.disable_mirror || f.disable_proxy) ≡ true
            → shows_routing p ≡ true)
  unfolding offered shows_routing configured_mirror proxy_configured
  Reach-offered p r =
      let s = Reach-Sound p r in
      (
        λ e. s.temporary e,
        λ e. s.bypassed e,
        λ e. s.direct e,
        λ e. ground (arith, e, s.temporary, s.bypassed, s.direct),
      )
