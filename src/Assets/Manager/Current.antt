-- ===== src/Assets/Manager/Current.antt =====
-- The host of a manager is the one of its configuration (lib/assets/manager.go).
use polarix_plus.Base.{
  if◌then◌else◌, Bool-cases, Table, Text, ◌≡◌, refl, ◌∙◌, inl, inr, Bool, true, false, not, ◌||◌,
  Option, none, some, List, [], ◌∷◌, ◌++◌,
}
use polarix_plus.Assets.Input.{Files}
use polarix_plus.Assets.Host.{
  new_host, is_listed, has_none, on_answer, upload, load, is_local, uploaded_as, send_loaded,
  img_to_url, Net, ImageHost, ProviderInput,
}
use polarix_plus.Assets.Manager.{
  do_op, do_ops, found, host_of, new_manager, reload, load_config, load_read, load_manager,
  if_written, save_text, save, missing, failed, found, move, watch, read_back, store, use_host,
  Disk, Manager, HostConfig, Read, Op,
}

-- Two hosts have the same providers and the same whitelist.
pub record Agrees {P : Type 0} (h g : ImageHost P) : Type 0 where
  pub same_providers : h.providers ≡ g.providers
  pub same_whitelist : h.whitelist ≡ g.whitelist

Agrees-self : {P : Type 0} (h : ImageHost P) → Agrees h h
Agrees-self h = record { same_providers = refl; same_whitelist = refl }

module _ {P W : Type 0} (net : Net P W) (files : Files) where
  upload-Agrees :
      (ps : List P) (input : ProviderInput) (h : ImageHost P) (w : W)
      → Agrees (upload net files ps input h w).1 h
  unfolding upload
  upload-Agrees [] input h w = Agrees-self h
  upload-Agrees (p ∷ ps) input h w =
      answer-Agrees (net.upload p input w).0 (λ v. upload-Agrees ps input h v)
    where
      answer-Agrees :
          (o : Option Text)
          → ((v : W) → Agrees (upload net files ps input h v).1 h)
          → Agrees
              (on_answer net files o
                (net.upload p input w).1
                h
                (λ u. upload net files ps input h u)).1
              h
      answer-Agrees (some url) later = record { same_providers = refl; same_whitelist = refl }
      answer-Agrees none later = later (net.upload p input w).1

  uploaded_as-host :
      (src buffer : Text) (r : Option Text × ImageHost P × W)
      → (uploaded_as net files src buffer r).1 ≡ r.1
  uploaded_as-host src buffer (none, h, w) = refl
  uploaded_as-host src buffer (some url, h, w) = refl

  send_loaded-Agrees :
      (src : Text) (h : ImageHost P) (r : Option ProviderInput × W)
      → Agrees (send_loaded net files src h r).1 h
  send_loaded-Agrees src h (none, w) = Agrees-self h
  send_loaded-Agrees src h (some input, w) =
      rw (uploaded_as-host src input.buffer (upload net files h.providers input h w))
        (upload-Agrees h.providers input h w)

  img_to_url-Agrees :
      (src : Text) (h : ImageHost P) (w : W) → Agrees (img_to_url net files src h w).1 h
  unfolding img_to_url
  img_to_url-Agrees src h w = elim (Bool-cases (is_listed src h.whitelist)) [
    | inl e ↦ rw e (Agrees-self h)
    | inr e ↦ elim (Bool-cases (has_none h.providers || not (is_local net files src))) [
      | inl f ↦ rw e (rw f (Agrees-self h))
      | inr f ↦ rw e (rw f (send_loaded-Agrees src h (load net files src w)))
    ]
  ]

Agrees-trans : {P : Type 0} {f g h : ImageHost P} → Agrees f g → Agrees g h → Agrees f h
Agrees-trans a b = record {
  same_providers = a.same_providers ∙ b.same_providers;
  same_whitelist = a.same_whitelist ∙ b.same_whitelist;
}

-- what the callback was given last agrees with the host
abbrev pub IsLatest : {P : Type 0} → Bool → ImageHost P → List (ImageHost P) → Type 0
IsLatest has_callback h [] = Unit
IsLatest has_callback h (g ∷ gs) = (has_callback ≡ true) × Agrees h g

IsLatest-told :
    {P : Type 0} (has_callback : Bool) (h g : ImageHost P) (gs : List (ImageHost P))
    → IsLatest has_callback g gs
    → IsLatest has_callback h (if has_callback then h ∷ gs else gs)
IsLatest-told true h g gs l = (refl, Agrees-self h)
IsLatest-told false h g [] l = tt
IsLatest-told false h g (k ∷ gs) l = cc

IsLatest-used :
    {P : Type 0} (has_callback : Bool) (h g : ImageHost P) (gs : List (ImageHost P))
    → Agrees h g
    → IsLatest has_callback g gs
    → IsLatest has_callback h gs
IsLatest-used b h g [] a l = tt
IsLatest-used b h g (k ∷ gs) a l = (l.0, Agrees-trans a l.1)

IsLatest-on_reload :
    {P : Type 0} (has_callback : Bool) (h : ImageHost P) (gs : List (ImageHost P))
    → IsLatest has_callback h gs
    → IsLatest true h gs
IsLatest-on_reload b h [] l = tt
IsLatest-on_reload b h (k ∷ gs) l = (refl, l.1)

module _ {P C W : Type 0} (reg : Table (C → Option P)) (disk : Disk C W) where
  -- The host has the providers and the whitelist of the configuration, and the callback knows it.
  pub record IsCurrent (m : Manager P C) : Type 0 where
    pub of_cfg : Agrees m.host (host_of reg disk m.cfg)
    pub latest : IsLatest m.has_callback m.host m.reloads

  reload-IsCurrent :
      (m : Manager P C) → IsLatest m.has_callback m.host m.reloads → IsCurrent (reload reg disk m)
  unfolding reload
  reload-IsCurrent m l = record {
    of_cfg = Agrees-self (host_of reg disk m.cfg);
    latest = IsLatest-told m.has_callback (host_of reg disk m.cfg) m.host m.reloads l;
  }

  new_manager-IsCurrent : IsCurrent (new_manager reg disk)
  unfolding new_manager
  new_manager-IsCurrent = record { of_cfg = Agrees-self (new_host reg [] []); latest = tt }

  load_read-IsCurrent :
      (m : Manager P C) (r : Read) → IsCurrent m → IsCurrent (load_read reg disk m r).1
  load_read-IsCurrent m missing c = c
  load_read-IsCurrent m failed c = c
  load_read-IsCurrent m (found text) c = decoded (disk.unmarshal text)
    where
      decoded : (o : Option (HostConfig C)) → IsCurrent (load_config reg disk m o).1
      decoded none = c
      decoded (some cfg) = reload-IsCurrent (record m { cfg = cfg }) c.latest

  save_text-IsCurrent :
      (cfg : HostConfig C) (m : Manager P C) (w : W) (o : Option Text)
      → IsCurrent m
      → IsCurrent (save_text reg disk cfg m w o).1
  save_text-IsCurrent cfg m w none c = c
  save_text-IsCurrent cfg m w (some text) c = written (disk.write m.path (text ++ 10 ∷ []) w).0
    where
      written : (ok : Bool) → IsCurrent (if_written reg disk cfg m ok)
      written true = reload-IsCurrent (record m { cfg = cfg }) c.latest
      written false = c

  module _ (net : Net P W) (files : Files) where
    do_op-IsCurrent :
        (op : Op C) (m : Manager P C) (w : W)
        → IsCurrent m
        → IsCurrent (do_op reg disk net files op (m, w)).0
    unfolding load_manager save
    do_op-IsCurrent (move p) m w c = record { of_cfg = c.of_cfg; latest = c.latest }
    do_op-IsCurrent watch m w c = record {
      of_cfg = c.of_cfg;
      latest = IsLatest-on_reload m.has_callback m.host m.reloads c.latest;
    }
    do_op-IsCurrent read_back m w c = load_read-IsCurrent m (disk.read m.path w) c
    do_op-IsCurrent (store cfg) m w c = save_text-IsCurrent cfg m w (disk.marshal cfg) c
    do_op-IsCurrent (use_host src) m w c =
        let used : Agrees (img_to_url net files src m.host w).1 m.host =
          img_to_url-Agrees net files src m.host w in
        record {
          of_cfg = Agrees-trans used c.of_cfg;
          latest =
              IsLatest-used m.has_callback (img_to_url net files src m.host w).1 m.host m.reloads
                used c.latest;
        }

    run-IsCurrent :
        (ops : List (Op C)) (m : Manager P C) (w : W)
        → IsCurrent m
        → IsCurrent (do_ops reg disk net files ops (m, w)).0
    run-IsCurrent [] m w c = c
    run-IsCurrent (op ∷ ops) m w c =
        run-IsCurrent ops (do_op reg disk net files op (m, w)).0
          (do_op reg disk net files op (m, w)).1 (do_op-IsCurrent op m w c)

    -- After any operations on a new manager, failures of the disk included, its host has the
    -- providers and the whitelist of its configuration, and so has the host that the callback was
    -- given last, where it was given one.
    pub do_ops-IsCurrent :
        (ops : List (Op C)) (w : W)
        → IsCurrent (do_ops reg disk net files ops (new_manager reg disk, w)).0
    do_ops-IsCurrent ops w = run-IsCurrent ops (new_manager reg disk) w new_manager-IsCurrent
