-- ===== src/Config/Hosts/Sole.antt =====
-- internal/config/config.go: the index of `HostResolver`, host by host.
use git_bridge.Base.{
  Text, List, [], ◌∷◌, Option, none, some, Bool, true, false, if◌then◌else◌, ◌==◌, ==_iff, ◌≡◌,
  refl, sym, ◌∙◌, ap, inl, inr, Map, lookup, insert, delete, lookup-insert, lookup-delete, member,
  get_or, Bool-cases, Option-cases, arith,
}
use git_bridge.Config.{ProviderConfig}
use git_bridge.Config.Hosts.{UrlHost, normalize_host, index_loop, drop_all, host_resolver, resolve}

-- The one member of a list that has one.
abbrev pub sole : List Text → Option Text
sole [] = none
sole (name ∷ []) = some name
sole (name ∷ other ∷ more) = none

module _ (url_host : UrlHost) where
  -- The names of the providers whose `base_url` has this host.
  unfoldable pub claimants : Text → Map ProviderConfig → List Text
  claimants host [] = []
  claimants host ((name, p) ∷ ps) =
      let rest = claimants host ps in
      if normalize_host url_host p.base_url == host then name ∷ rest else rest

  drop_all-lookup :
      (hosts : List Text) (host : Text) (index : Map Text)
      → lookup host (drop_all url_host hosts index)
        ≡ (if member host hosts then none else lookup host index)
  unfolding drop_all member
  drop_all-lookup [] host index = refl
  drop_all-lookup (h ∷ hs) host index =
      ground (arith, drop_all-lookup hs host (delete h index), lookup-delete h host index)

  -- What the loop has found for a host so far, before the rest is seen.
  abbrev so_far : Bool → Option Text → List Text → Option Text
  so_far true known later = none
  so_far false none later = sole later
  so_far false (some name) later = sole (name ∷ later)

  found_twice :
      (b : Bool) (first name : Text) (later : List Text)
      → none ≡ so_far b (some first) (name ∷ later)
  found_twice true first name later = refl
  found_twice false first name later = refl

  found_first :
      (b : Bool) (name : Text) (later : List Text)
      → so_far b (some name) later ≡ so_far b none (name ∷ later)
  found_first true name later = refl
  found_first false name later = refl

  at_host :
      (claimed host : Text) (index : Map Text)
      → (claimed == host) ≡ true
      → lookup host index ≡ lookup claimed index
  at_host claimed host index same = ap (λ k. lookup k index) (sym ((==_iff claimed host).0 same))

  index_loop-lookup :
      (host : Text) (ps : Map ProviderConfig)
      → (host == []) ≡ false
      → (index : Map Text) (ambiguous : List Text)
      → lookup host (
          drop_all url_host
            (index_loop url_host index ambiguous ps).1
            (index_loop url_host index ambiguous ps).0)
        ≡ so_far (member host ambiguous) (lookup host index) (claimants host ps)
  unfolding index_loop claimants member
  index_loop-lookup host [] named index ambiguous =
      drop_all-lookup ambiguous host index ∙ found_now (member host ambiguous) (lookup host index)
    where
      found_now : (b : Bool) (o : Option Text) → (if b then none else o) ≡ so_far b o []
      found_now true o = refl
      found_now false none = refl
      found_now false (some name) = refl
  index_loop-lookup host ((name, p) ∷ ps) named index ambiguous =
      let claimed = normalize_host url_host p.base_url in
      let cs = claimants host ps in
      elim (Bool-cases (claimed == [])) [
        | inl blank ↦
            (let other : (claimed == host) ≡ false =
                ground
                  (arith, blank, named, ==_iff claimed [], ==_iff claimed host, ==_iff host []) in
              rw (blank, other) (index_loop-lookup host ps named index ambiguous))
        | inr filled ↦ elim (Option-cases (lookup claimed index)) [
          | inl new ↦ elim (Bool-cases (claimed == host)) [
            | inl same ↦
                rw (filled, new, same)
                  (index_loop-lookup host ps named (insert claimed name index) ambiguous
                    ∙ (rw
                        (
                          lookup-insert claimed host name index,
                          same,
                          at_host claimed host index same ∙ new,
                        )
                        (found_first (member host ambiguous) name cs)))
            | inr other ↦
                rw (filled, new, other)
                  (index_loop-lookup host ps named (insert claimed name index) ambiguous
                    ∙ (rw (lookup-insert claimed host name index, other) refl))
          ]
          | inr (first, found) ↦ elim (Bool-cases (claimed == host)) [
            | inl same ↦
                rw (filled, found, same)
                  (index_loop-lookup host ps named index (claimed ∷ ambiguous)
                    ∙ (rw (same, at_host claimed host index same ∙ found)
                        (found_twice (member host ambiguous) first name cs)))
            | inr other ↦
                rw (filled, found, other)
                  (index_loop-lookup host ps named index (claimed ∷ ambiguous) ∙ (rw other refl))
          ]
        ]
      ]

  -- The provider that a URL resolves to is the only one whose `base_url` has the URL's host; there is
  -- none when no provider or more than one has it, or the URL has no host. The order in which the
  -- providers are gone through does not show.
  pub resolve-sole :
      (providers : Map ProviderConfig) (url : Text)
      → resolve url_host (host_resolver url_host providers) url ≡ (
          if normalize_host url_host url == []
          then []
          else get_or [] (sole (claimants (normalize_host url_host url) providers)))
  unfolding resolve host_resolver member lookup
  resolve-sole providers url =
      let host = normalize_host url_host url in
      elim (Bool-cases (host == [])) [
        | inl blank ↦ rw blank refl
        | inr named ↦ rw (named, index_loop-lookup host providers named [] []) refl
      ]
