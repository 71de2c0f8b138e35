-- ===== src/Wabinary/RoundTrip/NodeTrip/Attributes.antt =====
-- `read_attrs` gives back the attributes that `write_attrs` wrote.
use mathlib.Core.List.{append_assoc, append-nil}
use wassupweb.Prelude.{
  ◌≡◌, refl, sym, ap, ◌∙◌, Option, none, some, [], ◌∷◌, ◌++◌, Bytes, All, All-append, ok,
}
use wassupweb.Text.{Text}
use wassupweb.Wabinary.Node.{Attrs, Tables}
use wassupweb.Wabinary.Encode.{count_valid, write_attrs}
use wassupweb.Wabinary.Decode.{set_attr, read_attrs}
use wassupweb.Wabinary.RoundTrip.Canonical.{IsTable}
use wassupweb.Wabinary.RoundTrip.TextTrip.{read_next-write_text}
use wassupweb.Wabinary.RoundTrip.NodeTrip.Received.{kept, IsApart, IsDict, CanonicalAttrs}

-- The keys read so far differ from those that are still to come.
abbrev AreApart : Attrs → Attrs → Type 0
AreApart done attrs = All (λ (p : Text × Option Text). IsApart p.0 attrs) done

AreApart-tail :
    (done : Attrs) (p : Text × Option Text) (attrs : Attrs)
    → AreApart done (p ∷ attrs)
    → AreApart done attrs
AreApart-tail [] p attrs h = h
AreApart-tail (q ∷ done) p attrs ((h, hs), hd) = (hs, AreApart-tail done p attrs hd)

set_attr_new :
    (k v : Text) (o : Option Text) (done attrs : Attrs)
    → AreApart done ((k, o) ∷ attrs)
    → set_attr k v done ≡ done ++ ((k, some v) ∷ [])
unfolding set_attr
set_attr_new k v o [] attrs h = refl
set_attr_new k v o ((q, w) ∷ done) attrs ((h, hs), hd) =
    rw h (ap (λ (rest : Attrs). (q, w) ∷ rest) (set_attr_new k v o done attrs hd))

module _ (t : Tables) (table : IsTable t) where
  pub attrs_trip :
      (attrs : Attrs)
      → CanonicalAttrs t attrs
      → IsDict attrs
      → (bytes : Bytes) × (write_attrs t attrs ≡ ok bytes)
        × ((done : Attrs) (s : Bytes)
            → AreApart done attrs
            → read_attrs t (count_valid attrs) done (bytes ++ s) ≡ ok (done ++ kept attrs, s))
  unfolding write_attrs count_valid read_attrs kept
  attrs_trip [] h dict =
      ([], refl, λ done s apart. ap (λ (r : Attrs). ok (r, s)) (sym (append-nil done)))
  attrs_trip ((k, none) ∷ attrs) h (fresh, dict) =
      let (bytes, wrote, back) = attrs_trip attrs h dict in
      (bytes, wrote, λ done s apart. back done s (AreApart-tail done (k, none) attrs apart))
  attrs_trip ((k, some v) ∷ attrs) (hk, hv, h) (fresh, dict) =
      let (kb, wrote_k, back_k) = read_next-write_text t table k hk in
      let (vb, wrote_v, back_v) = read_next-write_text t table v hv in
      let (bytes, wrote, back) = attrs_trip attrs h dict in
      (
        kb ++ (vb ++ bytes),
        rw (wrote_k, wrote_v, wrote),
        λ done s apart.
            rw (append_assoc kb, append_assoc vb)
              (rw
                (
                  back_k (vb ++ (bytes ++ s)),
                  back_v (bytes ++ s),
                  set_attr_new k v (some v) done attrs apart,
                )
                (back (done ++ ((k, some v) ∷ [])) s (
                    All-append (λ (p : Text × Option Text). IsApart p.0 attrs) done
                      ((k, some v) ∷ []) (AreApart-tail done (k, some v) attrs apart) (fresh, tt))
                  ∙ rw append_assoc)),
      )
