-- ===== src/Admin/Config/Wanted.antt =====
-- What SetConfigIfNeed leaves in the nodes.
use mathlib.Core.Path.{subst}
use rediscluster_operator.Base.Maps.{IsMap}
use rediscluster_operator.Base.{
  ◌≡◌, refl, sym, ap, ◌∙◌, true, false, ◌&&◌, List, [], ◌∷◌, Option, none, some, Text, same,
  same_iff, same_refl, lookup, if◌then◌else◌, arith, Bool-cases, Option-cases, inl, inr, ◌⊎◌,
}
use rediscluster_operator.Admin.{
  handle_error, unexpected_error, answered_text, refused, Fault, AdminError, Redis, Cnx, has_client,
  validate_resp, send,
}
use rediscluster_operator.Admin.Commands.{Outcome, do_valid}
use rediscluster_operator.Admin.Config.{
  Settings, settings, no_settings, no_map, wanted, value_at, config_set, set_on_node,
  set_config_if_need,
}

later :
    (key k v : Text) (new : List (Text × Text))
    → lookup key new ≡ none
    → lookup k new ≡ some v
    → same key k ≡ false
later key k v new h e = elim (Bool-cases (same key k)) [
  | inl f ↦
      let h' : lookup k new ≡ none = subst (λ j. lookup j new ≡ none) ((same_iff key k).0 f) h in
      absurd (ground (arith, h', e))
  | inr f ↦ f
]

lookup-here :
    (key value : Text) (new : List (Text × Text)) → lookup key ((key, value) ∷ new) ≡ some value
unfolding lookup
lookup-here key value new = rw (same_refl key) refl

lookup-later :
    (key value k w : Text) (new : List (Text × Text))
    → lookup key new ≡ none
    → lookup k new ≡ some w
    → lookup k ((key, value) ∷ new) ≡ some w
unfolding lookup
lookup-later key value k w new h e = rw (later key k w new h e) e

module _ (stored : Text → Text → Text) where
  -- What a key holds that held `was`, where `w` is wanted: a value that is set is stored in a form of
  -- the node's own.
  abbrev pub holds : Text → Text → Option Text → Text
  holds key was none = was
  holds key was (some v) = if same v was then was else stored key v

  holds-holds : (key was : Text) (w : Option Text) → holds key (holds key was w) w ≡ holds key was w
  holds-holds key was none = refl
  holds-holds key was (some v) = elim (Bool-cases (same v was)) [
    | inl e ↦ rw e (rw e refl)
    | inr e ↦
        rw e (elim (Bool-cases (same v (stored key v))) [ inl f ↦ rw f refl | inr f ↦ rw f refl ])
  ]

  -- The same, where the new settings have `o` for the key.
  abbrev pub setting : Text → Option Text → Text → Text
  setting key none was = was
  setting key (some value) was = holds key was (wanted key value)

  setting-setting :
      (k : Text) (o : Option Text) (was : Text) → setting k o (setting k o was) ≡ setting k o was
  setting-setting k none was = refl
  setting-setting k (some value) was = holds-holds k was (wanted k value)

  -- One more setting.
  setting-more :
      (key value k was : Text) (new : List (Text × Text)) (w : Option Text)
      → lookup key new ≡ none
      → wanted key value ≡ w
      → setting k (lookup k ((key, value) ∷ new)) was
        ≡ setting k (lookup k new) (if same key k then holds key was w else was)
  unfolding lookup wanted has_client same
  setting-more key value k was new w h n = elim (Bool-cases (same key k)) [
    | inl e ↦ rw e (
        subst (λ j. setting j (some value) was ≡ setting j (lookup j new) (holds key was w))
          ((same_iff key k).0 e) (rw (n, h) refl))
    | inr e ↦ rw e refl
  ]

  setting-nil : (k was : Text) → setting k (lookup k []) was ≡ was
  unfolding lookup
  setting-nil k was = refl

module _ {S : Type 0} (redis : Redis S) (config_get : Text → S → S × Settings)
    (value_of : S → Text → Text → Text) (stored : Text → Text → Text) where
  -- CONFIG GET changes nothing and answers the settings of the node.
  abbrev pub IsRead : Type 0
  IsRead =
      (addr : Text) (s : S)
      → (old : List (Text × Text)) × ((config_get addr s ≡ (s, settings old))
          × ((key : Text) → value_at key old ≡ value_of s addr key))

  -- CONFIG SET is refused, or it is answered and stores the setting at that node only.
  abbrev pub IsWritten : Type 0
  IsWritten =
      (addr key value : Text) (s : S)
      → ((f : Fault) × ((redis.exec addr (config_set key value) s).1 ≡ refused f))
        ⊎ ((t : Text) × (((redis.exec addr (config_set key value) s).1 ≡ answered_text t)
              × ((a k : Text)
                  → value_of (redis.exec addr (config_set key value) s).0 a k
                    ≡ (if same a addr && same key k then stored key value else value_of s a k))))

  -- Some node refused a setting that is wanted.
  abbrev pub Refused : List (Text × Text) → Type 0
  Refused new =
      (addr : Text) × (key : Text) × (value : Text) × (v : Text) × (s : S) × (f : Fault) × (lookup
          key new
        ≡ some value)
      × (wanted key value ≡ some v)
      × ((redis.exec addr (config_set key v) s).1 ≡ refused f)

  here_lem :
      (s : S) (a addr key k u : Text)
      → same a addr ≡ true
      → same key k ≡ true
      → value_of s addr key ≡ u
      → value_of s a k ≡ u
  here_lem s a addr key k u c d h =
      sym (ap (value_of s a) ((same_iff key k).0 d))
      ∙ ap (λ x. value_of s x key) ((same_iff a addr).0 c)
      ∙ h

  module _ (writes : IsWritten) where
    set_on_node-skip :
        (addr key value : Text) (old new : List (Text × Text)) (cnx : Cnx S)
        → wanted key value ≡ none
        → set_on_node redis config_get addr old ((key, value) ∷ new) cnx
          ≡ set_on_node redis config_get addr old new cnx
    unfolding set_on_node
    set_on_node-skip addr key value old new cnx n = rw (set_on_node, n) refl

    set_on_node-same :
        (addr key value v : Text) (old new : List (Text × Text)) (cnx : Cnx S)
        → wanted key value ≡ some v
        → same v (value_at key old) ≡ true
        → set_on_node redis config_get addr old ((key, value) ∷ new) cnx
          ≡ set_on_node redis config_get addr old new cnx
    unfolding set_on_node
    set_on_node-same addr key value v old new cnx n e = rw (set_on_node, n, e) refl

    abbrev after_set : Text → Text → Text → Cnx S → Cnx S
    after_set addr key v cnx = record cnx {
      world = (redis.exec addr (config_set key v) cnx.world).0;
    }

    set_on_node-set :
        (addr key value v : Text) (old new : List (Text × Text)) (cnx : Cnx S) (r : Outcome S)
        → wanted key value ≡ some v
        → same v (value_at key old) ≡ false
        → do_valid redis addr (config_set key v) cnx ≡ r
        → set_on_node redis config_get addr old ((key, value) ∷ new) cnx
          ≡ (elim r.1 as (λ o. Outcome S) [
            | some e ↦ (r.0, some e)
            | none ↦ set_on_node redis config_get addr old new r.0
          ])
    unfolding set_on_node
    set_on_node-set addr key value v old new cnx r n e d =
        rw (set_on_node, n, e)
          (ap
            (λ (r : Outcome S). elim r.1 as (λ o. Outcome S) [
              | some e ↦ (r.0, some e)
              | none ↦ set_on_node redis config_get addr old new r.0
            ])
            d)

    do_valid-answered :
        (addr key v t : Text) (cnx : Cnx S)
        → (redis.exec addr (config_set key v) cnx.world).1 ≡ answered_text t
        → do_valid redis addr (config_set key v) cnx ≡ (after_set addr key v cnx, none)
    unfolding do_valid send validate_resp
    do_valid-answered addr key v t cnx h = rw h refl

    do_valid-refused :
        (addr key v : Text) (f : Fault) (cnx : Cnx S)
        → (redis.exec addr (config_set key v) cnx.world).1 ≡ refused f
        → (c : Cnx S) × (do_valid redis addr (config_set key v) cnx
            ≡ (c, some (unexpected_error addr f)))
    unfolding do_valid send validate_resp
    do_valid-refused addr key v f cnx h =
        ((handle_error redis addr (some f) (after_set addr key v cnx)).0, rw h refl)

    -- The nodes after the loop over the settings.
    abbrev OnNode : Text → List (Text × Text) → S → S → Type 0
    OnNode addr new s s' =
        (a k : Text)
        → value_of s' a k ≡ (
            if same a addr
            then setting stored k (lookup k new) (value_of s a k)
            else value_of s a k)

    merge :
        (addr a key value k W X : Text) (new : List (Text × Text)) (w : Option Text)
        → lookup key new ≡ none
        → wanted key value ≡ w
        → (same a addr ≡ true → X ≡ (if same key k then holds stored key W w else W))
        → (same a addr ≡ false → X ≡ W)
        → (if same a addr then setting stored k (lookup k new) X else X)
          ≡ (if same a addr then setting stored k (lookup k ((key, value) ∷ new)) W else W)
    merge addr a key value k W X new w h n p q = elim (Bool-cases (same a addr)) [
      | inl c ↦ rw c (
          ap (setting stored k (lookup k new)) (p c)
          ∙ sym (setting-more stored key value k W new w h n))
      | inr c ↦ rw c (q c)
    ]

    -- How the loop ends: the nodes have the settings, or some setting was refused.
    abbrev Ends : Text → List (Text × Text) → Cnx S → Outcome S → Type 0
    Ends addr new cnx r =
        ((s : S) × ((r ≡ (record cnx { world = s }, none)) × OnNode addr new cnx.world s))
        ⊎ ((c : Cnx S) × (e : AdminError) × ((r ≡ (c, some e)) × Refused new))

    more-Refused :
        (key value : Text) (new : List (Text × Text))
        → lookup key new ≡ none
        → Refused new
        → Refused ((key, value) ∷ new)
    more-Refused key value new h (a, j, u, v, s, f, p, q, r) =
        (a, j, u, v, s, f, lookup-later key value j u new h p, q, r)

    set_on_node_lem :
        (addr : Text) (old new : List (Text × Text)) (cnx : Cnx S)
        → IsMap new
        → ((k v : Text) → lookup k new ≡ some v → value_at k old ≡ value_of cnx.world addr k)
        → Ends addr new cnx (set_on_node redis config_get addr old new cnx)
    unfolding set_on_node
    set_on_node_lem addr old [] cnx h o =
        inl
          (cnx.world, (refl, λ a k. ground (arith, setting-nil stored k (value_of cnx.world a k))))
    set_on_node_lem addr old ((key, value) ∷ new) cnx h o =
        let rest_of = λ (k : Text) (w : Text) (q : lookup k new ≡ some w).
          o k w (lookup-later key value k w new h.0 q) in
        let had : value_of cnx.world addr key ≡ value_at key old =
          sym (o key value (lookup-here key value new)) in
        elim (Option-cases (wanted key value)) [
          | inl n ↦
              let step = set_on_node-skip addr key value old new cnx n in
              elim (set_on_node_lem addr old new cnx h.1 rest_of) [
                | inr (c, e, (f, g)) ↦ inr (c, e, (step ∙ f, more-Refused key value new h.0 g))
                | inl (s, (f, g)) ↦ inl (
                  s,
                  (
                    step ∙ f,
                    λ a k.
                        g a k
                        ∙ merge addr a key value k (value_of cnx.world a k) (value_of cnx.world a k)
                            new none h.0 n (λ c. ground arith) (λ c. refl),
                  ),
                )
              ]
          | inr (v, n) ↦ elim (Bool-cases (same v (value_at key old))) [
            | inl e ↦
                let step = set_on_node-same addr key value v old new cnx n e in
                elim (set_on_node_lem addr old new cnx h.1 rest_of) [
                  | inr (c, e, (f, g)) ↦ inr (c, e, (step ∙ f, more-Refused key value new h.0 g))
                  | inl (s, (f, g)) ↦ inl (
                    s,
                    (
                      step ∙ f,
                      λ a k.
                          g a k
                          ∙ merge addr a key value k (value_of cnx.world a k)
                              (value_of cnx.world a k) new (some v) h.0 n
                              (λ c. elim (Bool-cases (same key k)) [
                                | inr d ↦ rw d refl
                                | inl d ↦
                                    let z : same v (value_of cnx.world a k) ≡ true =
                                      ap (same v) (here_lem cnx.world a addr key k _ c d had) ∙ e in
                                    rw d (rw z refl)
                              ])
                              (λ c. refl),
                    ),
                  )
                ]
            | inr e ↦ elim (writes addr key v cnx.world) [
              | inl (f, r) ↦
                  let (c, d) = do_valid-refused addr key v f cnx r in
                  inr (
                    c,
                    unexpected_error addr f,
                    (
                      set_on_node-set addr key value v old new cnx _ n e d,
                      (addr, key, value, v, cnx.world, f, lookup-here key value new, n, r),
                    ),
                  )
              | inr (t, (r, w)) ↦
                  let step =
                    set_on_node-set addr key value v old new cnx _ n e
                      (do_valid-answered addr key v t cnx r) in
                  elim (set_on_node_lem addr old new (after_set addr key v cnx) h.1
                    (λ k u q. rest_of k u q ∙ ground (arith, w addr k, later key k u new h.0 q))) [
                      | inr (c, e, (f, g)) ↦
                          inr (c, e, (step ∙ f, more-Refused key value new h.0 g))
                      | inl (s, (f, g)) ↦ inl (
                        s,
                        (
                          step ∙ f,
                          λ a k.
                              g a k
                              ∙ merge addr a key value k (value_of cnx.world a k)
                                  (value_of (after_set addr key v cnx).world a k) new (some v) h.0 n
                                  (λ c. elim (Bool-cases (same key k)) [
                                    | inr d ↦ rw d (ground (arith, w a k, c, d))
                                    | inl d ↦
                                        let z : same v (value_of cnx.world a k) ≡ false =
                                          ap (same v) (here_lem cnx.world a addr key k _ c d had)
                                          ∙ e in
                                        rw d (rw z (ground (arith, w a k, c, d)))
                                  ])
                                  (λ c. ground (arith, w a k, c)),
                        ),
                      )
                    ]
            ]
          ]
        ]

    set_config_if_need-next :
        (addr : Text) (addrs : List Text) (new old : List (Text × Text)) (cnx : Cnx S)
        (r : Outcome S)
        → config_get addr cnx.world ≡ (cnx.world, settings old)
        → set_on_node redis config_get addr old new cnx ≡ r
        → set_config_if_need redis config_get (addr ∷ addrs) new cnx
          ≡ (elim r.1 as (λ o. Option (Outcome S)) [
            | some e ↦ some (r.0, some e)
            | none ↦ set_config_if_need redis config_get addrs new r.0
          ])
    unfolding set_config_if_need
    set_config_if_need-next addr addrs new old cnx r e f =
        ap
          (λ (got : S × Settings). elim got.1 [
            | no_settings e ↦ some (
              (handle_error redis addr (some e) (record cnx { world = got.0 })).0,
              some (unexpected_error addr e),
            )
            | no_map ↦ none
            | settings m ↦
                after (set_on_node redis config_get addr m new (record cnx { world = got.0 }))
          ])
          e
        ∙ ap after f
      where
        after : Outcome S → Option (Outcome S)
        after r = elim r.1 [
          | some e ↦ some (r.0, some e)
          | none ↦ set_config_if_need redis config_get addrs new r.0
        ]

    both :
        (addr : Text) (addrs : List Text) (a k : Text) (new : List (Text × Text)) (W X Y : Text)
        → X ≡ (if same a addr then setting stored k (lookup k new) W else W)
        → Y ≡ (if has_client a addrs then setting stored k (lookup k new) X else X)
        → Y ≡ (if has_client a (addr ∷ addrs) then setting stored k (lookup k new) W else W)
    unfolding has_client
    both addr addrs a k new W X Y x y = elim (Bool-cases (same a addr)) [
      | inl c ↦
          let d : same addr a ≡ true = ground (arith, same_iff addr a, same_iff a addr) in
          let z : X ≡ setting stored k (lookup k new) W = x ∙ rw c refl in
          rw d (
            y ∙ elim (Bool-cases (has_client a addrs)) [
              | inl m ↦ rw m (
                  ap (setting stored k (lookup k new)) z
                  ∙ setting-setting stored k (lookup k new) W)
              | inr m ↦ rw m z
            ])
      | inr c ↦
          let d : same addr a ≡ false = ground (arith, same_iff addr a, same_iff a addr) in
          let z : X ≡ W = x ∙ rw c refl in
          rw d (
            y ∙ elim (Bool-cases (has_client a addrs)) [
              | inl m ↦ rw m (ap (setting stored k (lookup k new)) z)
              | inr m ↦ rw m z
            ])
    ]

    -- How SetConfigIfNeed ends: each node has the new settings that can be read, in the node's own form
    -- where they are not held already, and nothing else has changed in any node; or the error of a
    -- setting that a node refused.
    abbrev pub AllSet : List Text → List (Text × Text) → Cnx S → Option (Outcome S) → Type 0
    AllSet addrs new cnx r =
        ((s : S) × ((r ≡ some (record cnx { world = s }, none))
            × ((a k : Text)
                → value_of s a k ≡ (
                    if has_client a addrs
                    then setting stored k (lookup k new) (value_of cnx.world a k)
                    else value_of cnx.world a k))))
        ⊎ ((c : Cnx S) × (e : AdminError) × ((r ≡ some (c, some e)) × Refused new))

    -- Where CONFIG GET answers the settings of a node, and CONFIG SET is refused or stores the setting,
    -- SetConfigIfNeed ends without a panic. It returns an error only where some node refused a wanted
    -- setting. Where it returns none, each node holds each new setting that can be read: as it was where
    -- it was so already, and else in the form in which the node stores it; nothing else has changed.
    pub set_config_if_need_lem :
        IsRead
        → (addrs : List Text) (new : List (Text × Text)) (cnx : Cnx S) → IsMap new
        → AllSet addrs new cnx (set_config_if_need redis config_get addrs new cnx)
    unfolding set_config_if_need has_client
    set_config_if_need_lem reads [] new cnx h = inl (cnx.world, (refl, λ a k. refl))
    set_config_if_need_lem reads (addr ∷ addrs) new cnx h =
        let (old, (e, o)) = reads addr cnx.world in
        elim (set_on_node_lem addr old new cnx h (λ k v q. o k)) [
          | inr (c, err, (f, g)) ↦
              inr (c, err, (set_config_if_need-next addr addrs new old cnx _ e f, g))
          | inl (s, (f, g)) ↦
              let step = set_config_if_need-next addr addrs new old cnx _ e f in
              elim (set_config_if_need_lem reads addrs new (record cnx { world = s }) h) [
                | inr (c, err, (f', g')) ↦ inr (c, err, (step ∙ f', g'))
                | inl (s', (f', g')) ↦
                    inl (s', (step ∙ f', λ a k. both addr addrs a k new _ _ _ (g a k) (g' a k)))
              ]
        ]
