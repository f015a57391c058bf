-- ===== src/SpireEntry/Compare.antt =====
-- internal/spireentry/entries.go: which fields of an entry are out of date.
use mathlib.Core.List.{Perm}
use mathlib.Core.List.Perm
use spire_eks_workload_regis.Prelude.{
  suc, ◌≡◌, refl, sym, ap, ◌∙◌, ◌↔◌, String, Bool, true, false, not, ◌&&◌, List, [], ◌∷◌, map,
  arith, if◌then◌else◌, length, bool_eq, Bool-cases, inl, inr, ◌==◌ as nat_eq,
}
use spire_eks_workload_regis.Prelude.Int.{int_eq, int_eq_iff}
use spire_eks_workload_regis.Prelude.Sorting.{insert_sorted, sort, sort-eq_of_perm, perm_of_sort-eq}
use spire_eks_workload_regis.Text.{Text, ◌==◌, eq_iff, eq_refl}
use spire_eks_workload_regis.Text.Order.{text_order, Text-set}
use spire_eks_workload_regis.SpireApi.{Spiffe, Entry}

-- The comparing loop over two slices of one length.
unfoldable pub same_items : List Text → List Text → Bool
same_items [] b = true
same_items (x ∷ a) [] = false
same_items (x ∷ a) (y ∷ b) = x == y && same_items a b

-- stringsMatch
unfoldable pub strings_match : List Text → List Text → Bool
strings_match a b =
    if not (nat_eq (length a) (length b))
    then false
    else same_items (sort text_order a) (sort text_order b)

length-insert_sorted :
    (x : Text) (l : List Text) → length (insert_sorted text_order x l) ≡ suc (length l)
unfolding insert_sorted
length-insert_sorted x [] = refl
length-insert_sorted x (y ∷ l) = ground (arith, length-insert_sorted x l)

length-sort : (l : List Text) → length (sort text_order l) ≡ length l
unfolding sort
length-sort [] = refl
length-sort (x ∷ l) = length-insert_sorted x (sort text_order l) ∙ ap suc (length-sort l)

same_items-eq : (a b : List Text) → length a ≡ length b → same_items a b ≡ true → a ≡ b
unfolding same_items
same_items-eq [] [] n h = refl
same_items-eq [] (y ∷ b) n h = absurd (omega arith)
same_items-eq (x ∷ a) [] n h = cc
same_items-eq (x ∷ a) (y ∷ b) n h = ground (arith, eq_iff x y, same_items-eq a b)

same_items_refl : (a : List Text) → same_items a a ≡ true
unfolding same_items
same_items_refl [] = refl
same_items_refl (x ∷ a) = rw (eq_refl x) (same_items_refl a)

-- stringsMatch holds exactly of two slices that are rearrangements of one another.
pub strings_match-perm : (a b : List Text) → (strings_match a b ≡ true) ↔ Perm a b
unfolding strings_match
strings_match-perm a b = (matched, matches)
  where
    matched : strings_match a b ≡ true → Perm a b
    matched h = elim (Bool-cases (nat_eq (length a) (length b))) [
      | inl e ↦ perm_of_sort-eq text_order (
          same_items-eq (sort text_order a) (sort text_order b)
            (ground (arith, length-sort a, length-sort b)) (rw e at h))
      | inr e ↦ cc (e, h)
    ]

    matches : Perm a b → strings_match a b ≡ true
    matches p =
        let s = sort-eq_of_perm text_order Text-set p in
        let n : length a ≡ length b = sym (length-sort a) ∙ ap length s ∙ length-sort b in
        let e : nat_eq (length a) (length b) ≡ true = ground arith in
        rw (e, s) (same_items_refl (sort text_order b))

-- `if changed { outdated = append(outdated, name) }`
abbrev pub when : Bool → String → List String → List String
when true name rest = name ∷ rest
when false name rest = rest

when-nil :
    (same : Bool) (name : String) (rest : List String)
    → (when (not same) name rest ≡ []) ↔ ((same ≡ true) × (rest ≡ []))
when-nil same name rest = ground arith

length-map : {A B : Type 0} (f : A → B) (l : List A) → length (map f l) ≡ length l
length-map f [] = refl
length-map f (x ∷ l) = ap suc (length-map f l)

module _ (sp : Spiffe) where
  -- trustDomainsMatch
  unfoldable pub trust_domains_match : List sp.TrustDomain → List sp.TrustDomain → Bool
  trust_domains_match a b =
      if not (nat_eq (length a) (length b))
      then false
      else same_items (sort text_order (map sp.td_string a)) (sort text_order (map sp.td_string b))

  -- getOutdatedEntryFields
  unfoldable pub outdated_entry_fields : Entry sp → Entry sp → List String
  outdated_entry_fields new old =
      when (not (int_eq old.x509_svid_ttl new.x509_svid_ttl)) "X509SVIDTTL" (
        when (not (int_eq old.jwt_svid_ttl new.jwt_svid_ttl)) "JWTSVIDTTL" (
          when (not (trust_domains_match old.federates_with new.federates_with)) "FederatesWith" (
            when (not (bool_eq old.admin new.admin)) "Admin" (
              when (not (bool_eq old.downstream new.downstream)) "Downstream" (
                when (not (strings_match old.dns_names new.dns_names)) "DNSNames"
                  (when (not (old.hint == new.hint)) "Hint" []))))))

  trust_domains_match-strings :
      (a b : List sp.TrustDomain)
      → trust_domains_match a b ≡ strings_match (map sp.td_string a) (map sp.td_string b)
  unfolding trust_domains_match strings_match
  trust_domains_match-strings a b = rw (length-map sp.td_string a, length-map sp.td_string b)

  trust_domains_match-perm :
      (a b : List sp.TrustDomain)
      → (trust_domains_match a b ≡ true) ↔ Perm (map sp.td_string a) (map sp.td_string b)
  trust_domains_match-perm a b = rw (trust_domains_match-strings a b) (strings_match-perm _ _)

  -- The fields agree, lists up to their order, and trust domains by their names.
  pub record UpToDate (new old : Entry sp) : Type 0 where
    pub x509_svid_ttl : old.x509_svid_ttl ≡ new.x509_svid_ttl
    pub jwt_svid_ttl : old.jwt_svid_ttl ≡ new.jwt_svid_ttl
    pub federates_with :
        Perm (map sp.td_string old.federates_with) (map sp.td_string new.federates_with)
    pub admin : old.admin ≡ new.admin
    pub downstream : old.downstream ≡ new.downstream
    pub dns_names : Perm old.dns_names new.dns_names
    pub hint : old.hint ≡ new.hint

  bool_eq_iff : (a b : Bool) → (bool_eq a b ≡ true) ↔ (a ≡ b)
  bool_eq_iff a b = ground arith

  -- getOutdatedEntryFields reports nothing exactly when the TTLs, the flags and the hint are equal,
  -- and the federated trust domains and the DNS names are rearrangements of one another.
  pub outdated_entry_fields-nil :
      (new old : Entry sp) → (outdated_entry_fields new old ≡ []) ↔ UpToDate new old
  unfolding outdated_entry_fields
  outdated_entry_fields-nil new old = (agree, none_outdated)
    where
      agree : outdated_entry_fields new old ≡ [] → UpToDate new old
      agree h0 =
          let (a, h1) =
            (when-nil (int_eq old.x509_svid_ttl new.x509_svid_ttl) "X509SVIDTTL" _).0 h0 in
          let (b, h2) = (when-nil (int_eq old.jwt_svid_ttl new.jwt_svid_ttl) "JWTSVIDTTL" _).0 h1 in
          let (c, h3) =
            (when-nil (trust_domains_match old.federates_with new.federates_with) "FederatesWith"
                _).0
              h2 in
          let (d, h4) = (when-nil (bool_eq old.admin new.admin) "Admin" _).0 h3 in
          let (e, h5) = (when-nil (bool_eq old.downstream new.downstream) "Downstream" _).0 h4 in
          let (f, h6) = (when-nil (strings_match old.dns_names new.dns_names) "DNSNames" _).0 h5 in
          let (g, h7) = (when-nil (old.hint == new.hint) "Hint" []).0 h6 in
          record {
            x509_svid_ttl = (int_eq_iff _ _).0 a;
            jwt_svid_ttl = (int_eq_iff _ _).0 b;
            federates_with = (trust_domains_match-perm _ _).0 c;
            admin = (bool_eq_iff _ _).0 d;
            downstream = (bool_eq_iff _ _).0 e;
            dns_names = (strings_match-perm _ _).0 f;
            hint = (eq_iff _ _).0 g;
          }

      none_outdated : UpToDate new old → outdated_entry_fields new old ≡ []
      none_outdated u = rw (
        (int_eq_iff old.x509_svid_ttl new.x509_svid_ttl).1 u.x509_svid_ttl,
        (int_eq_iff old.jwt_svid_ttl new.jwt_svid_ttl).1 u.jwt_svid_ttl,
        (trust_domains_match-perm old.federates_with new.federates_with).1 u.federates_with,
        (bool_eq_iff old.admin new.admin).1 u.admin,
        (bool_eq_iff old.downstream new.downstream).1 u.downstream,
        (strings_match-perm old.dns_names new.dns_names).1 u.dns_names,
        (eq_iff old.hint new.hint).1 u.hint,
      )

  UpToDate-refl : (e : Entry sp) → UpToDate e e
  UpToDate-refl e = record {
    x509_svid_ttl = refl;
    jwt_svid_ttl = refl;
    federates_with = Perm.refl _;
    admin = refl;
    downstream = refl;
    dns_names = Perm.refl _;
    hint = refl;
  }

  pub outdated_entry_fields_refl : (e : Entry sp) → outdated_entry_fields e e ≡ []
  outdated_entry_fields_refl e = (outdated_entry_fields-nil e e).1 (UpToDate-refl e)
