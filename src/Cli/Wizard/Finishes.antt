-- ===== src/Cli/Wizard/Finishes.antt =====
-- The wizard ends: each of its rounds reads lines, and the input is finite.
use querylynx.Base.{
  ℕ, zero, suc, ◌≤◌, ◌<◌, Option, none, some, [], ◌∷◌, length, arith, ◌==◌, if◌then◌else◌,
  Bool-cases, inl, inr, Result, ok, err,
}
use querylynx.Strings.{Text, codes}
use querylynx.Session.{Session, Registry, RegisterError, Outside}
use querylynx.Cli.Console.{Console, Io, pure, print, prompt, prompt_default, choose}
use querylynx.Cli.Console.Ends.{
  Uses, Reads, bind-Reads, Reads-le, then_run-Uses, Uses-le, prompt-Reads, prompt_default-Reads,
  choose-Reads,
}
use querylynx.Cli.Wizard.{
  Terminal, provider_chosen, provider_loop, dialect_chosen, dialect_loop, choose_provider,
  choose_dialect, plain_line, password_typed, hidden_line, read_secret, key_or_ask, key_variable,
  read_api_key, dsn_fields, build_dsn, model_label, ask_database, ask_params, call_register,
  registered, connect_wizard,
}

module _ {W : Type 0} where
  provider_chosen-Uses :
      (again : Io W Text) (n : ℕ) (c : Console W)
      → ((c' : Console W) → length c'.input ≤ length c.input → Uses 0 c' (again c'))
      → Uses 0 c (provider_chosen again n c)
  unfolding provider_chosen print
  provider_chosen-Uses again n c go = elim (Bool-cases (n == 1)) [
    | inl e ↦ rw e (omega arith)
    | inr e ↦ elim (Bool-cases (n == 2)) [
      | inl f ↦ rw e (rw f (omega arith))
      | inr f ↦ rw e (rw f (go _ (omega arith)))
    ]
  ]

  provider_loop-Uses :
      (rounds : ℕ) (c : Console W) → length c.input < rounds → Uses 1 c (provider_loop rounds c)
  unfolding provider_loop
  provider_loop-Uses zero c h = absurd (omega arith)
  provider_loop-Uses (suc rounds) c h =
      then_run-Uses 1 0 c (choose (codes "  choose [1]: ") 3 1 c) _
        (choose-Reads (codes "  choose [1]: ") 3 1 c)
        (λ n c' used. provider_chosen-Uses (provider_loop rounds) n c' (λ d fewer.
          Uses-le 0 1 d (provider_loop rounds d) (omega arith)
            (provider_loop-Uses rounds d (omega arith))))

  dialect_chosen-Uses :
      (again : Io W Text) (n : ℕ) (c : Console W)
      → ((c' : Console W) → length c'.input ≤ length c.input → Uses 0 c' (again c'))
      → Uses 0 c (dialect_chosen again n c)
  unfolding dialect_chosen print
  dialect_chosen-Uses again n c go = elim (Bool-cases (n == 1)) [
    | inl e ↦ rw e (omega arith)
    | inr e ↦ rw e (go _ (omega arith))
  ]

  dialect_loop-Uses :
      (rounds : ℕ) (c : Console W) → length c.input < rounds → Uses 1 c (dialect_loop rounds c)
  unfolding dialect_loop
  dialect_loop-Uses zero c h = absurd (omega arith)
  dialect_loop-Uses (suc rounds) c h =
      then_run-Uses 1 0 c (choose (codes "  choose [1]: ") 3 1 c) _
        (choose-Reads (codes "  choose [1]: ") 3 1 c)
        (λ n c' used. dialect_chosen-Uses (dialect_loop rounds) n c' (λ d fewer.
          Uses-le 0 1 d (dialect_loop rounds d) (omega arith)
            (dialect_loop-Uses rounds d (omega arith))))

  choose_provider-Uses :
      (rounds : ℕ) (c : Console W) → length c.input < rounds → Uses 1 c (choose_provider rounds c)
  unfolding choose_provider print
  choose_provider-Uses rounds c h = provider_loop-Uses rounds _ h

  choose_dialect-Uses :
      (rounds : ℕ) (c : Console W) → length c.input < rounds → Uses 1 c (choose_dialect rounds c)
  unfolding choose_dialect print
  choose_dialect-Uses rounds c h = dialect_loop-Uses rounds _ h

module _ {W : Type 0} (term : Terminal W) where
  password_typed-Reads : (typed : Option Text) → Reads 0 (password_typed term typed)
  unfolding password_typed plain_line
  password_typed-Reads none c = omega arith
  password_typed-Reads (some t) c = omega arith

  read_secret-Reads : (label : Text) → Reads 0 (read_secret term label)
  unfolding read_secret print hidden_line plain_line
  read_secret-Reads label c = elim (Bool-cases term.is_terminal) [
    | inl e ↦ rw e (password_typed-Reads _ _)
    | inr e ↦ rw e (omega arith)
  ]

  key_or_ask-Reads : (var value : Text) → Reads 0 (key_or_ask term var value)
  unfolding key_or_ask print
  key_or_ask-Reads var [] c = read_secret-Reads (codes "  API key: ") c
  key_or_ask-Reads var (v ∷ value) c = omega arith

  read_api_key-Reads : (provider : Text) → Reads 0 (read_api_key term provider)
  unfolding read_api_key
  read_api_key-Reads provider = key_or_ask-Reads (key_variable provider) _

  prompted : (label def : Text) → Reads 0 (prompt_default {W = W} label def)
  prompted label def =
      Reads-le 0 1 (prompt_default label def) (omega arith) (prompt_default-Reads label def)

  dsn_fields-Reads : Reads 0 (dsn_fields term)
  unfolding dsn_fields
  dsn_fields-Reads =
      bind-Reads 0 0 (prompt_default (codes "  host") []) _ (prompted (codes "  host") []) (λ host.
        bind-Reads 0 0 (prompt_default (codes "  port") (codes "5432")) _
          (prompted (codes "  port") (codes "5432"))
          (λ port.
            bind-Reads 0 0 (prompt_default (codes "  database") (codes "postgres")) _
              (prompted (codes "  database") (codes "postgres"))
              (λ db.
                bind-Reads 0 0 (prompt_default (codes "  user") (codes "querylynx_ro")) _
                  (prompted (codes "  user") (codes "querylynx_ro"))
                  (λ user.
                    bind-Reads 0 0 (read_secret term (codes "  password: ")) _
                      (read_secret-Reads (codes "  password: ")) (λ pass c. omega arith)))))

  dsn_chosen-Reads :
      (how : ℕ)
      → Reads 0 (if how == 2 then dsn_fields term else prompt (codes "  paste connection URI: "))
  dsn_chosen-Reads how = elim (Bool-cases (how == 2)) [
    | inl e ↦ rw e dsn_fields-Reads
    | inr e ↦ rw e (
        Reads-le 0 1 (prompt (codes "  paste connection URI: ")) (omega arith)
          (prompt-Reads (codes "  paste connection URI: ")))
  ]

  build_dsn-Reads : Reads 1 (build_dsn term)
  unfolding build_dsn print
  build_dsn-Reads c =
      bind-Reads 1 0 (choose (codes "  choose [1]: ") 2 1) _
        (choose-Reads (codes "  choose [1]: ") 2 1) dsn_chosen-Reads (record c { output = _ })

  ask_database-Uses :
      (rounds : ℕ) (provider key model : Text) (c : Console W)
      → length c.input < rounds
      → Uses 1 c (ask_database term rounds provider key model c)
  unfolding ask_database
  ask_database-Uses rounds provider key model c h =
      then_run-Uses 1 0 c (choose_dialect rounds c) _ (choose_dialect-Uses rounds c h)
        (λ dialect c' used.
          bind-Reads 0 0 (build_dsn term)
            (λ dsn. pure (record {
              provider = provider;
              api_key = key;
              model_id = model;
              dialect = dialect;
              dsn = dsn;
            }))
            (Reads-le 0 1 (build_dsn term) (omega arith) build_dsn-Reads) (λ dsn d. omega arith) c')

  ask_params-Uses :
      (rounds : ℕ) (c : Console W) → length c.input < rounds → Uses 1 c (ask_params term rounds c)
  unfolding ask_params
  ask_params-Uses rounds c h =
      then_run-Uses 1 0 c (choose_provider rounds c) _ (choose_provider-Uses rounds c h)
        (λ provider c₁ u₁.
          then_run-Uses 0 0 c₁ (read_api_key term provider c₁) _ (read_api_key-Reads provider c₁)
            (λ key c₂ u₂.
              then_run-Uses 0 0 c₂ (prompt_default (model_label provider) [] c₂)
                (ask_database term rounds provider key) (prompted (model_label provider) [] c₂)
                (λ model c₃ u₃.
                  Uses-le 0 1 c₃ (ask_database term rounds provider key model c₃) (omega arith)
                    (ask_database-Uses rounds provider key model c₃ (omega arith)))))

  module _ (out : Outside W) where
    registered-Uses :
        (again : Registry W → Io W (Session W × Registry W))
        (answer : Result RegisterError (Session W) × Registry W) (c : Console W)
        → ((r : Registry W) (c' : Console W)
            → length c'.input ≤ length c.input
            → Uses 0 c' (again r c'))
        → Uses 0 c (registered term out again answer c)
    unfolding registered print
    registered-Uses again (err e, r) c go = go r _ (omega arith)
    registered-Uses again (ok session, r) c go = omega arith

    -- With a round for each line of input, and one more, the wizard ends.
    pub connect_wizard-Uses :
        (rounds : ℕ) (r : Registry W) (c : Console W)
        → length c.input < rounds
        → Uses 1 c (connect_wizard term out rounds r c)
    unfolding connect_wizard
    connect_wizard-Uses zero r c h = absurd (omega arith)
    connect_wizard-Uses (suc rounds) r c h =
        then_run-Uses 1 0 c (ask_params term (suc rounds) c) _ (ask_params-Uses (suc rounds) c h)
          (λ p c₁ u₁.
            unfold print call_register in
            registered-Uses (connect_wizard term out rounds) _ _ (λ r' c₂ fewer.
              Uses-le 0 1 c₂ (connect_wizard term out rounds r' c₂) (omega arith)
                (connect_wizard-Uses rounds r' c₂ (omega arith))))
