-- ===== src/Registry/Fetch/Manifest.antt =====
-- Which URLs the manifest of an image is asked for.
use aether_supervisor.Prelude.{
  Text, codes, text_eq, Bool, Option, none, some, [], ◌++◌, ◌⊎◌, inl, inr, ◌≡◌, refl, sym, ap, ◌∙◌,
  Option-cases, if-keeps, if◌then◌else◌,
}
use aether_supervisor.Container.Identifier.{is_empty}
use aether_supervisor.Registry.Auth.{Url, Reference, Libraries, address_or_empty}
use aether_supervisor.Registry.Fetch.{
  Formats, ManifestUrl, with_host, override_host, manifest_host, image_manifest_url,
  build_manifest_url,
}

some-ne-none : {t : Text} → none ≡ some t → ⊥
some-ne-none e = cc

same : {s t : Text} → some s ≡ some t → s ≡ t
same e = cc

module _ (l : Libraries) (formats : Formats) (tls_skip : Bool) (image : Text) where
  -- The address of the manifest with this tag in the repository of the reference
  abbrev pub address : Reference → Text → Text
  address reference tag = l.render (record {
    scheme = if tls_skip then codes "http" else codes "https";
    host = address_or_empty l reference.name;
    path = codes "/v2/" ++ reference.path ++ codes "/manifests/" ++ tag;
    query = [];
  })

  -- The URL is the address of the image's manifest, by its reference and its tag, or is that address
  -- with another host.
  abbrev pub IsManifestOf : Text → Type 0
  IsManifestOf url =
      (reference : Reference) × (tag : Text) × (formats.parse_docker_ref image
        ≡ some (reference, some tag))
      × ((url ≡ address reference tag)
          ⊎ ((u : Url) × (host : Text) × (l.parse_url (address reference tag) ≡ some u)
              × (url ≡ l.render (with_host l formats host u))))

  -- The URL that was built, and what it becomes with another host
  abbrev pub IsBuilt : ManifestUrl l formats → Type 0
  IsBuilt m =
      IsManifestOf m.text
      × ((host : Text) → IsManifestOf (l.render (with_host l formats host m.parsed)))

  abbrev pub IsBuilt? : Option (ManifestUrl l formats) → Type 0
  IsBuilt? none = Unit
  IsBuilt? (some m) = IsBuilt m

  override_host-IsBuilt :
      (host_override text original : Text) (u : Url)
      → IsManifestOf text
      → ((host : Text) → IsManifestOf (l.render (with_host l formats host u)))
      → IsBuilt? (override_host l formats host_override text original u)
  override_host-IsBuilt host_override text original u h moved =
      if-keeps IsBuilt? (is_empty u.host) _ _ tt (
        if-keeps IsBuilt? (is_empty host_override)
          (some (record { text = text; original_host = original; parsed = u })) _ (h, moved)
          (moved host_override, moved))

  manifest_host-IsBuilt :
      (host_override text : Text) (u : Url)
      → IsManifestOf text
      → ((host : Text) → IsManifestOf (l.render (with_host l formats host u)))
      → IsBuilt? (manifest_host l formats host_override text u)
  manifest_host-IsBuilt host_override text u h moved =
      let ghcr = with_host l formats (codes "ghcr.io") u in
      if-keeps IsBuilt? (text_eq u.host (codes "lscr.io")) _ _
        (override_host-IsBuilt host_override (l.render ghcr) u.host ghcr (moved (codes "ghcr.io"))
          moved)
        (override_host-IsBuilt host_override text u.host u h moved)

  image_manifest_url-address :
      (text : Text)
      → image_manifest_url l formats (if tls_skip then codes "http" else codes "https") image
        ≡ some text
      → (reference : Reference) × (tag : Text) × (formats.parse_docker_ref image
          ≡ some (reference, some tag))
        × (text ≡ address reference tag)
  unfolding image_manifest_url
  image_manifest_url-address text e = elim (Option-cases (formats.parse_docker_ref image)) [
    | inl p ↦ absurd (some-ne-none (rw (image_manifest_url, p) at e))
    | inr ((r, tag), p) ↦ elim (Option-cases tag) [
      | inl q ↦ absurd (some-ne-none (rw (image_manifest_url, p, q) at e))
      | inr (t, q) ↦
          (r, t, p ∙ ap (λ tag. some (r, tag)) q, sym (same (rw (image_manifest_url, p, q) at e)))
    ]
  ]

  pub build_manifest_url-IsBuilt :
      (host_override : Text) → IsBuilt? (build_manifest_url l formats tls_skip image host_override)
  unfolding build_manifest_url
  build_manifest_url-IsBuilt host_override =
      let scheme = if tls_skip then codes "http" else codes "https" in
      elim (Option-cases (image_manifest_url l formats scheme image)) [
        | inl e ↦ rw (e, build_manifest_url) tt
        | inr (text, e) ↦ elim (Option-cases (l.parse_url text)) [
          | inl f ↦ rw (e, f, build_manifest_url) tt
          | inr (u, f) ↦
              let (r, t, p, same) = image_manifest_url-address text e in
              rw (e, f, build_manifest_url)
                (manifest_host-IsBuilt host_override text u (r, t, p, inl same)
                  λ host. (r, t, p, inr (u, host, sym (ap l.parse_url same) ∙ f, refl)))
        ]
      ]
