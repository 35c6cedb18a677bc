-- ===== src/Desktop/Normal.antt =====
-- What normalizing does to the settings of p2pearl/gui.py.
use mathlib.Core.Option
use p2pearl.Prelude.{
  inl, inr, true, false, if◌then◌else◌, Option, none, some, [], ◌∷◌, ◌≡◌, refl, sym, ◌∙◌, arith,
  Bool-cases, Option-cases, if-elim, ap, subst,
}
use p2pearl.Prelude.Result.{ok}
use p2pearl.Prelude.Keys.{Str, bytes_key, bytes_eq, bytes_eq_iff}
use p2pearl.Prelude.Dict.{lookup, insert, contains, IsDict, lookup-insert, insert-IsDict}
use p2pearl.Prelude.Text.{codes}
use p2pearl.Desktop.Settings.{
  Settings, networks, defaults, update, field, managed_rpc_url, local_url, known_network,
  managed_url, normalize_settings,
}

abbrev or_else : Option Str → Option Str → Option Str
or_else none o = o
or_else (some v) o = some v

lookup-update :
    (k : Str) (d e : Settings)
    → IsDict e
    → lookup k (update d e) ≡ or_else (lookup k e) (lookup k d)
unfolding update lookup
lookup-update k d [] h = refl
lookup-update k d ((j, v) ∷ e) h =
    ground
      (arith, lookup-update k (insert j v d) e h.1, lookup-insert j k v d, bytes_eq_iff j k, h.0)

update-IsDict : (d e : Settings) → IsDict d → IsDict (update d e)
unfolding update
update-IsDict d [] h = h
update-IsDict d ((j, v) ∷ e) h = update-IsDict (insert j v d) e (insert-IsDict j v d h)

-- Settings that the window works with: every key is there, the network is a known one, and in managed
-- mode the URL is that of the network.
pub record IsNormal (s : Settings) : Type 0 where
  pub has_keys : (k : Str) → contains k defaults ≡ true → contains k s ≡ true
  pub known : contains (field s (codes "network")) networks ≡ true
  pub managed :
      field s (codes "manage_pearld") ≡ codes "1"
      → managed_rpc_url (field s (codes "network")) ≡ ok (field s (codes "rpc_url"))

contains-update :
    (k : Str) (d e : Settings) → IsDict e → contains k d ≡ true → contains k (update d e) ≡ true
contains-update k d e h c = ground (arith, lookup-update k d e h)

contains-insert :
    (k j v : Str) (d : Settings) → contains k d ≡ true → contains k (insert j v d) ≡ true
contains-insert k j v d h = ground (arith, lookup-insert j k v d)

field-insert :
    (k j v : Str) (d : Settings) → field (insert j v d) k ≡ (if bytes_eq j k then v else field d k)
unfolding field
field-insert k j v d = ground (arith, lookup-insert j k v d)

known_network_same :
    (s : Settings) → contains (field s (codes "network")) networks ≡ true → known_network s ≡ s
unfolding known_network
known_network_same s h = ground arith

known_network_other :
    (s : Settings)
    → contains (field s (codes "network")) networks ≡ false
    → known_network s ≡ insert (codes "network") (codes "mainnet") s
unfolding known_network
known_network_other s h = ground arith

mainnet_known : contains (codes "mainnet") networks ≡ true
unfolding lookup bytes_eq
mainnet_known = refl

abbrev KnownNetwork : Settings → Type 0
KnownNetwork s = contains (field s (codes "network")) networks ≡ true

known_network-known : (s : Settings) → KnownNetwork (known_network s)
unfolding bytes_eq
known_network-known s = elim (Bool-cases (contains (field s (codes "network")) networks)) [
  | inl e ↦ subst KnownNetwork (sym (known_network_same s e)) e
  | inr e ↦
      let there : field (insert (codes "network") (codes "mainnet") s) (codes "network")
          ≡ codes "mainnet" =
        field-insert (codes "network") (codes "network") (codes "mainnet") s in
      subst KnownNetwork (sym (known_network_other s e))
        (subst (λ (n : Str). contains n networks ≡ true) (sym there) mainnet_known)
]

contains-known_network :
    (k : Str) (s : Settings) → contains k s ≡ true → contains k (known_network s) ≡ true
contains-known_network k s h = elim (Bool-cases (contains (field s (codes "network")) networks)) [
  | inl e ↦ subst (λ (t : Settings). contains k t ≡ true) (sym (known_network_same s e)) h
  | inr e ↦
      subst (λ (t : Settings). contains k t ≡ true) (sym (known_network_other s e))
        (contains-insert k (codes "network") (codes "mainnet") s h)
]

known_network-IsDict : (s : Settings) → IsDict s → IsDict (known_network s)
unfolding known_network
known_network-IsDict s h =
    if-elim IsDict (contains (field s (codes "network")) networks) s
      (insert (codes "network") (codes "mainnet") s) (λ _. h)
      (λ _. insert-IsDict (codes "network") (codes "mainnet") s h)

managed_rpc_url-known :
    (n : Str) → contains n networks ≡ true → (url : Str) × (managed_rpc_url n ≡ ok url)
unfolding managed_rpc_url
managed_rpc_url-known n h = elim (Option-cases (lookup n networks)) [
  | inl e ↦ absurd (ground arith)
  | inr (net, e) ↦ (local_url net.rpc_port, rw e refl)
]

managed_url_other :
    (s : Settings)
    → bytes_eq (field s (codes "manage_pearld")) (codes "1") ≡ false
    → managed_url s ≡ s
unfolding managed_url
managed_url_other s h = rw h refl

managed_url_on :
    (s : Settings) (url : Str)
    → bytes_eq (field s (codes "manage_pearld")) (codes "1") ≡ true
    → managed_rpc_url (field s (codes "network")) ≡ ok url
    → managed_url s ≡ insert (codes "rpc_url") url s
unfolding managed_url
managed_url_on s url h e = rw (h, e) refl

managed_url-IsNormal :
    (s : Settings)
    → ((k : Str) → contains k defaults ≡ true → contains k s ≡ true)
    → KnownNetwork s
    → IsNormal (managed_url s)
unfolding bytes_eq
managed_url-IsNormal s keys known =
    elim (Bool-cases (bytes_eq (field s (codes "manage_pearld")) (codes "1"))) [
      | inr off ↦
          let whole : IsNormal s = record {
            has_keys = keys;
            known = known;
            managed = λ on.
                absurd (ground (arith, bytes_eq_iff (field s (codes "manage_pearld")) (codes "1")));
          } in
          subst IsNormal (sym (managed_url_other s off)) whole
      | inl on ↦
          let (url, e) = managed_rpc_url-known (field s (codes "network")) known in
          let t : Settings = insert (codes "rpc_url") url s in
          let net : field t (codes "network") ≡ field s (codes "network") =
            field-insert (codes "network") (codes "rpc_url") url s in
          let there : field t (codes "rpc_url") ≡ url =
            field-insert (codes "rpc_url") (codes "rpc_url") url s in
          let whole : IsNormal t = record {
            has_keys = λ k h. contains-insert k (codes "rpc_url") url s (keys k h);
            known = subst (λ (n : Str). contains n networks ≡ true) (sym net) known;
            managed = λ _. ap managed_rpc_url net ∙ (e ∙ ap ok (sym there));
          } in
          subst IsNormal (sym (managed_url_on s url on e)) whole
    ]

defaults-IsDict : IsDict defaults
unfolding defaults lookup bytes_eq
defaults-IsDict = (
  refl,
  (
    refl,
    (
      refl,
      (
        refl,
        (refl, (refl, (refl, (refl, (refl, (refl, (refl, (refl, (refl, (refl, (refl, tt))))))))))),
      ),
    ),
  ),
)

merged_same :
    (s : Settings) → IsDict s → IsNormal s → (k : Str) → lookup k (update defaults s) ≡ lookup k s
merged_same s d n k = ground (arith, lookup-update k defaults s d, n.has_keys k)

lookup-field : (s : Settings) (k : Str) → contains k s ≡ true → lookup k s ≡ some (field s k)
unfolding field
lookup-field s k h = ground arith

-- Two dictionaries that answer alike.
abbrev Same : Settings → Settings → Type 0
Same s t = (k : Str) → lookup k s ≡ lookup k t

field-Same : (s t : Settings) (k : Str) → Same s t → field s k ≡ field t k
unfolding field
field-Same s t k h = ap (λ (o : Option Str). Option.get_or o []) (h k)

managed_url_fixed :
    (s t : Settings)
    → Same s t
    → IsNormal t
    → contains (codes "rpc_url") t ≡ true
    → Same (managed_url s) t
managed_url_fixed s t same n has k =
    elim (Bool-cases (bytes_eq (field s (codes "manage_pearld")) (codes "1"))) [
      | inr off ↦
          subst (λ (u : Settings). lookup k u ≡ lookup k t) (sym (managed_url_other s off)) (same k)
      | inl on ↦
          let is_on : field t (codes "manage_pearld") ≡ codes "1" =
            sym (field-Same s t (codes "manage_pearld") same)
            ∙ (bytes_eq_iff (field s (codes "manage_pearld")) (codes "1")).0 on in
          let url : managed_rpc_url (field s (codes "network")) ≡ ok (field t (codes "rpc_url")) =
            ap managed_rpc_url (field-Same s t (codes "network") same) ∙ n.managed is_on in
          subst (λ (u : Settings). lookup k u ≡ lookup k t)
            (sym (managed_url_on s (field t (codes "rpc_url")) on url))
            (ground (
              arith,
              lookup-insert (codes "rpc_url") k (field t (codes "rpc_url")) s,
              bytes_eq_iff (codes "rpc_url") k,
              lookup-field t (codes "rpc_url") has,
              same k,
            ))
    ]

known_network_fixed : (s t : Settings) → Same s t → IsNormal t → known_network s ≡ s
known_network_fixed s t same n = known_network_same s (
    subst (λ (m : Str). contains m networks ≡ true) (sym (field-Same s t (codes "network") same))
      n.known)

url_key : contains (codes "rpc_url") defaults ≡ true
unfolding defaults lookup bytes_eq
url_key = refl

normalize_settings_fixed : (s : Settings) → IsDict s → IsNormal s → Same (normalize_settings s) s
unfolding normalize_settings
normalize_settings_fixed s d n =
    let u : Settings = update defaults s in
    let same : Same u s = merged_same s d n in
    subst (λ (t : Settings). Same (managed_url t) s) (sym (known_network_fixed u s same n))
      (managed_url_fixed u s same n (n.has_keys (codes "rpc_url") url_key))

normalize_settings-IsDict : (s : Settings) → IsDict (normalize_settings s)
unfolding normalize_settings managed_url
normalize_settings-IsDict s =
    let t : Settings = known_network (update defaults s) in
    let d : IsDict t =
      known_network-IsDict (update defaults s) (update-IsDict defaults s defaults-IsDict) in
    elim (Bool-cases (bytes_eq (field t (codes "manage_pearld")) (codes "1"))) [
      | inr off ↦ subst IsDict (sym (managed_url_other t off)) d
      | inl on ↦
          let (url, e) =
            managed_rpc_url-known (field t (codes "network"))
              (known_network-known (update defaults s)) in
          subst IsDict (sym (managed_url_on t url on e)) (insert-IsDict (codes "rpc_url") url t d)
    ]

normalized : (s : Settings) → IsDict s → IsNormal (normalize_settings s)
unfolding normalize_settings
normalized s d =
    managed_url-IsNormal (known_network (update defaults s))
      (λ k h. contains-known_network k (update defaults s) (contains-update k defaults s d h))
      (known_network-known (update defaults s))

-- Normalizing gives settings that have every key of the defaults, a known network and, in managed
-- mode, the URL of that network's port; to normalize them again changes no setting.
pub normalize_settings-IsNormal :
    (s : Settings)
    → IsDict s
    → IsNormal (normalize_settings s)
      × ((k : Str)
          → lookup k (normalize_settings (normalize_settings s)) ≡ lookup k (normalize_settings s))
normalize_settings-IsNormal s d =
    let n = normalized s d in
    (n, normalize_settings_fixed (normalize_settings s) (normalize_settings-IsDict s) n)
