-- ===== src/Command/Forwarding/Accepted.antt =====
-- Which forwarding settings start the program, and what the error of the others says.
use yukon_collector.Base.{
  ℕ, ◌≡◌, ◌≢◌, refl, ◌⊎◌, inl, inr, false, Option, some, [], Bytes, ℤ, pos, le_int,
}
use yukon_collector.Text.Decimal.{atoi}
use yukon_collector.TokenFile.{Opened}
use yukon_collector.Forward.Config.{
  or_default, with_defaults, default_shards, default_queue_size, default_queue_bytes,
  default_request_timeout, default_retry_initial_interval, default_retry_max_interval,
  default_retry_max_elapsed_time,
}
use yukon_collector.Command.Forwarding.Keys.{IsSource, IsKeyFault, resolve_key_lem}
use yukon_collector.Command.Settings.{
  SettingError, Result, ◌>>=◌, Getenv, positive_int_env, positive_duration_env,
}
use yukon_collector.Command.Settings.Outcome.{
  Yields, >>=-Yields, Yields-weaken, IsSetting, IsBadNumber, positive_int_env_lem,
  positive_duration_env_lem,
}
use yukon_collector.Command.Forwarding.{
  forward_url, forward_auth_token, forward_auth_token_file, forward_shards, forward_queue_size,
  forward_queue_bytes, forward_request_timeout, forward_retry_initial_interval,
  forward_retry_max_interval, forward_retry_max_elapsed_time, Forwarding, answers,
  resolve_forward_config,
}

-- A number of the settings that are in force: the variable's, or the default where it is not set.
abbrev pub InForce : (Bytes → Option ℤ) → Bytes → ℕ → ℤ → Type 0
InForce reads raw d v =
    ((raw ≡ []) × (v ≡ pos d)) ⊎ ((raw ≢ []) × (reads raw ≡ some v) × (le_int v (pos 0) ≡ false))

module _ (files : Bytes → Option Opened) (parse_duration : Bytes → Option ℤ) (getenv : Getenv) where
  -- Settings that the variables give, and the numbers that they put in force.
  pub record IsGiven (s : Forwarding) : Type 0 where
    pub url : s.cfg.url ≡ getenv forward_url
    pub source :
        IsSource files
          (getenv forward_url)
          (getenv forward_auth_token)
          (getenv forward_auth_token_file)
          s.source
    pub auth_token : s.cfg.auth_token ≡ answers s.source
    pub shards : InForce atoi (getenv forward_shards) default_shards (with_defaults s.cfg).shards
    pub queue_size :
        InForce atoi (getenv forward_queue_size) default_queue_size (with_defaults s.cfg).queue_size
    pub queue_bytes :
        InForce atoi
          (getenv forward_queue_bytes)
          default_queue_bytes
          (with_defaults s.cfg).queue_bytes
    pub request_timeout :
        InForce parse_duration
          (getenv forward_request_timeout)
          default_request_timeout
          (with_defaults s.cfg).request_timeout
    pub retry_initial_interval :
        InForce parse_duration
          (getenv forward_retry_initial_interval)
          default_retry_initial_interval
          (with_defaults s.cfg).retry_initial_interval
    pub retry_max_interval :
        InForce parse_duration
          (getenv forward_retry_max_interval)
          default_retry_max_interval
          (with_defaults s.cfg).retry_max_interval
    pub retry_max_elapsed_time :
        InForce parse_duration
          (getenv forward_retry_max_elapsed_time)
          default_retry_max_elapsed_time
          (with_defaults s.cfg).retry_max_elapsed_time

  -- What is wrong with the variables, and the error for it.
  pub data IsFault (e : SettingError) : Type 0 where
    bad_key :
        IsKeyFault files
          (getenv forward_url)
          (getenv forward_auth_token)
          (getenv forward_auth_token_file)
          e
        → IsFault e
    bad_int : (name : Bytes) → IsBadNumber atoi getenv name e → IsFault e
    bad_duration : (name : Bytes) → IsBadNumber parse_duration getenv name e → IsFault e

  in_force :
      (reads : Bytes → Option ℤ) (raw : Bytes) (d : ℕ) (v : ℤ)
      → IsSetting reads raw v
      → InForce reads raw d (or_default v d)
  in_force reads raw d v (inl (r, e)) = inl (r, rw e refl)
  in_force reads raw d v (inr (r, e, p)) = inr (r, rw p e, rw p p)

  -- One number of the chain.
  then_int :
      {A : Type 0} (P : A → Type 0) (name : Bytes) (f : ℤ → Result A)
      → ((v : ℤ) → IsSetting atoi (getenv name) v → Yields P IsFault (f v))
      → Yields P IsFault (positive_int_env getenv name >>= f)
  then_int P name f next =
      >>=-Yields (IsSetting atoi (getenv name)) P IsFault (positive_int_env getenv name) f
        (Yields-weaken _ _ _ _ (λ e q. bad_int name q) (positive_int_env_lem getenv name)) next

  then_duration :
      {A : Type 0} (P : A → Type 0) (name : Bytes) (f : ℤ → Result A)
      → ((v : ℤ) → IsSetting parse_duration (getenv name) v → Yields P IsFault (f v))
      → Yields P IsFault (positive_duration_env parse_duration getenv name >>= f)
  then_duration P name f next =
      >>=-Yields (IsSetting parse_duration (getenv name)) P IsFault
        (positive_duration_env parse_duration getenv name) f
        (Yields-weaken _ _ _ _ (λ e q. bad_duration name q)
          (positive_duration_env_lem parse_duration getenv name))
        next

  -- Either the program gets settings, and they are the ones that the variables give: a key that can be
  -- sent, and a backend if there is a key, and for each number the variable's positive value, or the
  -- default where it is not set; or it gets an error, and what the error says is wrong is so.
  pub resolve_forward_config_lem :
      Yields IsGiven IsFault (resolve_forward_config files parse_duration getenv)
  unfolding resolve_forward_config with_defaults
  resolve_forward_config_lem =
      >>=-Yields _ IsGiven IsFault _ _
        (Yields-weaken _ _ _ _ (λ e q. bad_key q) (resolve_key_lem files _ _ _))
        λ source k. then_int IsGiven forward_shards _ λ shards a.
          then_int IsGiven forward_queue_size _ λ queue_size b.
            then_int IsGiven forward_queue_bytes _ λ queue_bytes c.
              then_duration IsGiven forward_request_timeout _ λ timeout d.
                then_duration IsGiven forward_retry_initial_interval _ λ initial x.
                  then_duration IsGiven forward_retry_max_interval _ λ longest y.
                    then_duration IsGiven forward_retry_max_elapsed_time _ λ elapsed z. inl (
                      _,
                      refl,
                      record {
                        url = refl;
                        source = k;
                        auth_token = refl;
                        shards = in_force atoi _ _ _ a;
                        queue_size = in_force atoi _ _ _ b;
                        queue_bytes = in_force atoi _ _ _ c;
                        request_timeout = in_force parse_duration _ _ _ d;
                        retry_initial_interval = in_force parse_duration _ _ _ x;
                        retry_max_interval = in_force parse_duration _ _ _ y;
                        retry_max_elapsed_time = in_force parse_duration _ _ _ z;
                      },
                    )
