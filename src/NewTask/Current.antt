-- ===== src/NewTask/Current.antt =====
-- The estimate that counts as current is the server's answer for exactly the form's inputs.
use modelshelf.Common.{
  subst, String, Bool, true, false, ◌||◌, Option, some, ◌≡◌, refl, sym, ap, ◌∙◌, str_eq, arith,
  eq_iff, Bool-cases, inl, inr, Option-cases,
}
use modelshelf.Common.Scan.{NoNul, NoNul-trim, cut_at_nul}
use modelshelf.Task.{
  Provider, huggingface, modelscope_cn, modelscope_ai, github_release, kaggle, http, filesystem,
}
use modelshelf.Queue.Filters.{provider_value, source_value, read_provider}
use modelshelf.Queue.Filters.Roundtrip.{read_provider-source_value}
use modelshelf.NewTask.Form.{
  DownloadEstimate, ParsedUrl, Inputs, Control, choose_provider, type_url, pick_model,
  type_revision, pick_revision, toggle_temporary_mirror, type_mirror, toggle_mirror, toggle_proxy,
  edit, default_revision, temporary_mirror, can_estimate, estimate_key_of, bool_text,
}
use modelshelf.NewTask.Estimate.{
  Preflight, opened, EstimateRequest, request_of, estimated, aborted, refused, estimate_replied,
  estimate_refused, controlled, default_loaded, timer_fired, rendered, same_dependencies, settled,
  inputs_effect, invalidate_estimate, estimate_is_current, is_ready,
}

NoNul-provider_value : (p : Provider) → NoNul (provider_value p)
unfolding provider_value
NoNul-provider_value huggingface = omega arith
NoNul-provider_value modelscope_cn = omega arith
NoNul-provider_value modelscope_ai = omega arith
NoNul-provider_value github_release = omega arith
NoNul-provider_value kaggle = omega arith
NoNul-provider_value http = omega arith
NoNul-provider_value filesystem = omega arith

NoNul-bool_text : (b : Bool) → NoNul (bool_text b)
NoNul-bool_text true = omega arith
NoNul-bool_text false = omega arith

bool_text_injective : (a b : Bool) → bool_text a ≡ bool_text b → a ≡ b
bool_text_injective true true e = refl
bool_text_injective true false e = ground (arith, eq_iff "true" "false")
bool_text_injective false true e = ground (arith, eq_iff "false" "true")
bool_text_injective false false e = refl

provider_value_injective : (p r : Provider) → provider_value p ≡ provider_value r → p ≡ r
unfolding source_value
provider_value_injective p r e =
    let e' : ◌≡◌ {A = Option Provider} (some p) (some r) =
      sym (read_provider-source_value (some p))
      ∙ ap (λ t. read_provider (some t)) e
      ∙ read_provider-source_value (some r) in
    cc

-- The texts of the form hold no NUL, as no text field of a browser does.
pub record IsClean (f : Inputs) : Type 0 where
  pub clean_id : NoNul f.id
  pub clean_revision : NoNul f.revision
  pub clean_mirror : NoNul f.mirror_url

NoNul-temporary_mirror : (f : Inputs) → IsClean f → NoNul (temporary_mirror f)
unfolding temporary_mirror
NoNul-temporary_mirror f c = elim (Bool-cases f.use_temporary_mirror) [
  | inl used ↦ rw used (NoNul-trim f.mirror_url c.clean_mirror)
  | inr unused ↦ rw unused tt
]

-- The key tells two forms apart whenever they ask for different estimates.
pub estimate_key_of-request_of :
    (f g : Inputs)
    → IsClean f
    → IsClean g
    → estimate_key_of f ≡ estimate_key_of g
    → request_of f ≡ request_of g
unfolding estimate_key_of request_of
estimate_key_of-request_of f g cf cg e =
    let (p, e₁) =
      cut_at_nul _ _ _ _ (NoNul-provider_value f.provider) (NoNul-provider_value g.provider) e in
    let (i, e₂) =
      cut_at_nul _ _ _ _ (NoNul-trim f.id cf.clean_id) (NoNul-trim g.id cg.clean_id) e₁ in
    let (r, e₃) =
      cut_at_nul _ _ _ _ (NoNul-trim f.revision cf.clean_revision)
        (NoNul-trim g.revision cg.clean_revision) e₂ in
    let (m, e₄) =
      cut_at_nul _ _ _ _ (NoNul-bool_text f.disable_mirror) (NoNul-bool_text g.disable_mirror) e₃ in
    let (t, x) =
      cut_at_nul _ _ _ _ (NoNul-temporary_mirror f cf) (NoNul-temporary_mirror g cg) e₄ in
    ground (
      arith,
      provider_value_injective f.provider g.provider p,
      i,
      r,
      bool_text_injective f.disable_mirror g.disable_mirror m,
      t,
      bool_text_injective f.disable_proxy g.disable_proxy x,
    )

abbrev pub CleanControl : Control → Type 0
CleanControl (type_url t) = NoNul t
CleanControl (pick_model t) = NoNul t
CleanControl (type_revision t) = NoNul t
CleanControl (pick_revision t) = NoNul t
CleanControl (type_mirror t) = NoNul t
CleanControl (choose_provider p) = Unit {0}
CleanControl (toggle_temporary_mirror b) = Unit {0}
CleanControl (toggle_mirror b) = Unit {0}
CleanControl (toggle_proxy b) = Unit {0}

NoNul-default_revision : (p : Provider) → NoNul (default_revision p)
unfolding default_revision
NoNul-default_revision huggingface = omega arith
NoNul-default_revision _ = omega arith

some-eq {ℓ} : {A : Type ℓ} → {a b : A} → ◌≡◌ {A = Option A} (some a) (some b) → a ≡ b
some-eq e = cc

cleaned_by :
    (g : Inputs)
    → {f : Inputs} → f ≡ g
    → NoNul f.revision
    → f.id ≡ ""
    → f.mirror_url ≡ ""
    → IsClean g
cleaned_by g {f} e r i m =
    subst IsClean e (record { clean_id = rw i tt; clean_revision = r; clean_mirror = rw m tt })

edit-IsClean :
    (c : Control) (f g : Inputs) → CleanControl c → IsClean f → edit c f ≡ some g → IsClean g
unfolding edit
edit-IsClean (choose_provider p) f g k cf e =
    cleaned_by g (some-eq e) (NoNul-default_revision p) refl refl
edit-IsClean (type_url t) f g k cf e = ground arith
edit-IsClean (pick_model t) f g k cf e = ground (arith, NoNul-default_revision f.provider)
edit-IsClean (type_revision t) f g k cf e = ground arith
edit-IsClean (pick_revision t) f g k cf e = ground arith
edit-IsClean (type_mirror t) f g k cf e = ground arith
edit-IsClean (toggle_temporary_mirror b) f g k cf e = ground arith
edit-IsClean (toggle_mirror b) f g k cf e = ground arith
edit-IsClean (toggle_proxy b) f g k cf e = ground arith

-- A reachable state of the form, where `Answers r e` says that the server answers the request `r`
-- with the estimate `e`. The reply to an older lookup may come late, and an abort that meets the
-- reading of a body is reported as any other error.
module _ (parse_url : String → Option ParsedUrl)
    (Answers : EstimateRequest → DownloadEstimate → Type 0) where
  pub data Reach : Preflight → Type 0 where
    start : Reach opened
    control :
        {st : Preflight}
        → (c : Control) → CleanControl c
        → Reach st
        → Reach (controlled parse_url c st)
    default_shown :
        {st : Preflight}
        → (revision : String) → NoNul revision
        → Reach st
        → Reach (default_loaded parse_url revision st)
    timer : {st : Preflight} → Reach st → Reach (timer_fired st)
    answer :
        {st : Preflight}
        → (f : Inputs) → IsClean f
        → (e : DownloadEstimate) → Answers (request_of f) e
        → Reach st
        → Reach (settled (estimate_replied f (estimated e) st))
    abort :
        {st : Preflight} → (f : Inputs) → Reach st → Reach (settled (estimate_replied f aborted st))
    failure :
        {st : Preflight}
        → (f : Inputs) → (message : String) → Reach st
        → Reach (settled (estimate_replied f (refused message) st))

  record Answered (key : String) (held : Option DownloadEstimate) : Type 0 where
    form : Inputs
    clean : IsClean form
    same_key : key ≡ estimate_key_of form
    estimate : DownloadEstimate
    shown : held ≡ some estimate
    answered : Answers (request_of form) estimate

  record Sound (st : Preflight) : Type 0 where
    inputs_clean : IsClean (st.inputs)
    source : is_ready st.estimate_lookup ≡ true → Answered st.estimate_key st.estimate

  inputs_effect-Sound : (st : Preflight) → Sound st → Sound (inputs_effect parse_url st)
  unfolding inputs_effect invalidate_estimate
  inputs_effect-Sound st s = elim (Bool-cases (can_estimate parse_url st.inputs)) [
    | inl able ↦ rw able (record { inputs_clean = s.inputs_clean; source = λ r. s.source r })
    | inr unable ↦ rw unable (record { inputs_clean = s.inputs_clean; source = λ r. ground arith })
  ]

  rendered-Sound : (old : Inputs) (st : Preflight) → Sound st → Sound (rendered parse_url old st)
  unfolding rendered
  rendered-Sound old st s = elim (Bool-cases (same_dependencies old st.inputs)) [
    | inl same ↦ rw same s
    | inr different ↦ rw different (inputs_effect-Sound st s)
  ]

  moved : {a b : Preflight} → a ≡ b → Sound b → Sound a
  moved e s = subst Sound (sym e) s

  controlled-Sound :
      (c : Control) (st : Preflight) → CleanControl c → Sound st → Sound (controlled parse_url c st)
  unfolding controlled invalidate_estimate
  controlled-Sound c st k s = elim (Option-cases (edit c st.inputs)) [
    | inl nothing ↦ moved (ground (arith, nothing)) s
    | inr (g, edited) ↦ moved (ground (arith, edited)) (
        rendered-Sound st.inputs (invalidate_estimate (record st { inputs = g })) (record {
          inputs_clean = edit-IsClean c st.inputs g k s.inputs_clean edited;
          source = λ r. ground arith;
        }))
  ]

  default_loaded-Sound :
      (revision : String) (st : Preflight)
      → NoNul revision
      → Sound st
      → Sound (default_loaded parse_url revision st)
  unfolding default_loaded
  default_loaded-Sound revision st n s =
      elim (Bool-cases (st.inputs.revision_edited || str_eq st.inputs.revision revision)) [
        | inl kept ↦ rw kept s
        | inr new ↦ rw new (
            inputs_effect-Sound (record st { inputs = record (st.inputs) { revision = revision } })
              (record {
                inputs_clean = record {
                  clean_id = s.inputs_clean.clean_id;
                  clean_revision = n;
                  clean_mirror = s.inputs_clean.clean_mirror;
                };
                source = λ r. s.source r;
              }))
      ]

  timer_fired-Sound : (st : Preflight) → Sound st → Sound (timer_fired st)
  unfolding timer_fired
  timer_fired-Sound st s = elim (Option-cases st.live) [
    | inl none_live ↦ moved (ground (arith, none_live)) s
    | inr (l, live) ↦ elim (Bool-cases l.sent) [
      | inl sent ↦ moved (ground (arith, live, sent)) s
      | inr waits ↦ record {
        inputs_clean = ground (arith, s.inputs_clean, live, waits);
        source = λ r. ground (arith, live, waits);
      }
    ]
  ]

  Reach-Sound : {st : Preflight} → Reach st → Sound st
  unfolding estimate_replied estimate_refused settled
  Reach-Sound start = record {
    inputs_clean = record { clean_id = tt; clean_revision = omega arith; clean_mirror = tt };
    source = λ r. ground arith;
  }
  Reach-Sound (control c k r) = controlled-Sound c _ k (Reach-Sound r)
  Reach-Sound (default_shown revision n r) = default_loaded-Sound revision _ n (Reach-Sound r)
  Reach-Sound (timer r) = timer_fired-Sound _ (Reach-Sound r)
  Reach-Sound (answer f c e a r) = record {
    inputs_clean = (Reach-Sound r).inputs_clean;
    source = λ x. record {
      form = f;
      clean = c;
      same_key = refl;
      estimate = e;
      shown = refl;
      answered = a;
    };
  }
  Reach-Sound (abort f r) = record {
    inputs_clean = (Reach-Sound r).inputs_clean;
    source = λ x. (Reach-Sound r).source x;
  }
  Reach-Sound (failure f message r) = record {
    inputs_clean = (Reach-Sound r).inputs_clean;
    source = λ x. ground arith;
  }

  -- However the user edits the form and in whatever order the lookups reply, an estimate that counts
  -- as current is an answer of the server to the request for the inputs that the form shows now,
  -- and it is downloadable; if no text of the form holds a NUL.
  pub estimate_is_current-Answers :
      (st : Preflight)
      → Reach st
      → estimate_is_current st ≡ true
      → (e : DownloadEstimate) × (st.estimate ≡ some e)
        × Answers (request_of st.inputs) e
        × (e.downloadable ≡ true)
  unfolding estimate_is_current
  estimate_is_current-Answers st r current =
      let s = Reach-Sound r in
      let a = s.source (ground arith) in
      let k : estimate_key_of a.form ≡ estimate_key_of st.inputs =
        sym a.same_key ∙ ground (arith, eq_iff st.estimate_key (estimate_key_of st.inputs)) in
      (
        a.estimate,
        a.shown,
        subst (λ q. Answers q a.estimate)
            (estimate_key_of-request_of a.form st.inputs a.clean s.inputs_clean k) a.answered,
        ground (arith, a.shown),
      )
