-- ===== src/Consumer/Retry/Gates.antt =====
-- internal/consumer/retry.go: what a retry must have shown before it starts.
use mathlib.Core.Path.{subst}
use git_bridge.Base.{
  Text, [], ◌++◌, Option, none, some, true, false, lit, length, ◌≡◌, ◌≢◌, ap, ◌∙◌, ◌⊎◌, inl, inr,
  ◌≤◌, arith, ==_iff, ◌==◌, if◌then◌else◌, Bool-cases, Option-cases, trim_space, to_lower,
}
use git_bridge.Base.TextLaws.{prefixed}
use git_bridge.Mirror.{EventMeta, source_retry_api, source_cron}
use git_bridge.Consumer.{Decode, Request, Job, sync_job, delete_job, retry_job, read_all}
use git_bridge.Consumer.Retry.{
  RetryRequest, resolve_retry_source, is_valid_retry_direction, max_retry_body_size, retry_handler,
  retry_sourced, retry_parsed, retry_read,
}

abbrev direction_asked : RetryRequest → Text
direction_asked rr = if rr.direction == [] then lit "auto" else rr.direction

abbrev job_asked : RetryRequest → Text → Job
job_asked rr source = retry_job rr.repo (direction_asked rr) (record {
  ref = rr.ref;
  source = source;
  force = rr.force;
  force_lease = trim_space rr.dest;
  actor = rr.actor;
})

-- A force names a ref and the tip it overwrites, and is not the scheduled caller's.
abbrev pub Deliberate : EventMeta → Type 0
Deliberate meta =
    (meta.force ≡ false)
    ⊎ ((trim_space meta.ref ≢ []) × (meta.force_lease ≢ []) × (meta.source ≡ source_retry_api))

-- The retry of a named repository in a known direction, from one of the two recorded triggers.
abbrev pub Sane : Job → Type 0
Sane (sync_job key path meta) = ⊥
Sane (delete_job key path ref_type ref_name) = ⊥
Sane (retry_job repo direction meta) =
    (trim_space repo ≢ [])
    × (is_valid_retry_direction direction ≡ true)
    × ((meta.source ≡ source_retry_api) ⊎ (meta.source ≡ source_cron))
    × Deliberate meta

nonempty : (t : Text) → (t == []) ≡ false → t ≢ []
nonempty t h e = ground (arith, h, e, ==_iff t [])

resolved-known :
    (hint source : Text)
    → resolve_retry_source hint ≡ some source
    → (source ≡ source_retry_api) ⊎ (source ≡ source_cron)
unfolding resolve_retry_source
resolved-known hint source h = elim (Bool-cases (to_lower (trim_space hint) == [])) [
  | inl unsaid ↦ inl (ground (arith, h, unsaid))
  | inr said ↦ inr (ground (arith, h, said))
]

sourced-Sane :
    (now : Text) (rr : RetryRequest) (source : Text) (job : Job)
    → (trim_space rr.repo == []) ≡ false
    → is_valid_retry_direction (direction_asked rr) ≡ true
    → (source ≡ source_retry_api) ⊎ (source ≡ source_cron)
    → (retry_sourced now rr (direction_asked rr) (some source)).started ≡ some job
    → Sane job
unfolding retry_sourced
sourced-Sane now rr source job named valid known h = subst Sane (started) (
  nonempty _ named,
  valid,
  known,
  elim (Bool-cases rr.force) [
    | inr plain ↦ inl plain
    | inl force ↦ inr (
      nonempty _ (ground (arith, h, force)),
      nonempty _ (ground (arith, h, force)),
      elim known [
        | inl api ↦ api
        | inr cron ↦ absurd (ground (arith, h, force, cron, ==_iff source source_cron))
      ],
    )
  ],
)
  where
    started : job_asked rr source ≡ job
    started = ground (arith, h)

module _ (now api_token : Text) (decode : Decode RetryRequest) (r : Request) where
  parsed-Sane :
      (job : Job) (o : Option RetryRequest) → (retry_parsed now o).started ≡ some job → Sane job
  unfolding retry_parsed
  parsed-Sane job none h = absurd (ground (arith, h))
  parsed-Sane job (some rr) h = elim (Option-cases (resolve_retry_source rr.source)) [
    | inl unknown ↦ absurd (ground (arith, h, unknown))
    | inr (source, e) ↦
        sourced-Sane now rr source job (ground (arith, h)) (ground (arith, h))
          (resolved-known rr.source source e) (ground (arith, h, e))
  ]

  -- What the retry endpoint starts: only with an API token configured and shown, on a POST whose body
  -- arrived whole and within 4 kB; only the retry of a named repository in a known direction, recorded
  -- as the retry API's or cron's; and with force only where a ref and the tip to overwrite are named
  -- and the caller is not cron.
  pub retry_handler-Gated :
      (job : Job)
      → (retry_handler now api_token decode r).started ≡ some job
      → (api_token ≢ [])
        × (r.header (lit "Authorization") ≡ lit "Bearer " ++ api_token)
        × (r.is_post ≡ true)
        × (length r.body ≤ max_retry_body_size)
        × (r.broken ≡ false)
        × Sane job
  unfolding retry_handler retry_read read_all
  retry_handler-Gated job h =
      let auth = r.header (lit "Authorization") in
      let bearer = lit "Bearer " in
      (
        nonempty api_token (ground (arith, h)),
        (prefixed auth bearer (ground (arith, h))
            ∙ ap (λ t. bearer ++ t) ((==_iff _ api_token).0 (ground (arith, h)))),
        ground (arith, h),
        ground (arith, h),
        ground (arith, h),
        parsed-Sane job (decode r.body) (ground (arith, h)),
      )
