-- ===== src/Agents/Owned.antt =====
-- packages/agent-installers/src/jsonConfig.ts: which servers of a configuration are the lab's own.
use pickforge.Base.{
  ◌≡◌, ◌⊎◌, ◌↔◌, inl, inr, refl, ap, String, str_eq, eq_iff, Bool, true, false, sym, ◌∙◌,
  if◌then◌else◌, ◌&&◌, ◌||◌, Bool-cases, Option, none, some, List, [], ◌∷◌, ◌++◌, keep, arith,
}
use pickforge.Json.{Json, Fields, undefined, null, bool, num, str, arr, obj, get, prop, has}
use pickforge.Agents.Objects.{names_it}
use pickforge.Agents.Snippet.{mcp_server_name, browser_mcp_server_name, legacy_mcp_server_entries}
use pickforge.Agents.JsonConfig.{
  items_of, same_text, is_string_of, entry_matches, owned_legacy_entry_names, names_to_remove,
}

module _ (stringify : Json → Option String) where
  -- An entry that an earlier release of the lab wrote: its command is `picklab`, and its arguments
  -- print as those of that release.
  abbrev pub IsOwn : List String → Json → Type 0
  IsOwn args (obj fs) =
      (prop "command" fs ≡ str "picklab")
      × (stringify (prop "args" fs) ≡ stringify (arr (items_of args)))
  IsOwn args v = ⊥

  -- The servers of the lab: the two names it has now, and each of the two older names if its entry is
  -- the lab's own.
  abbrev pub IsLabs : String → Json → Type 0
  IsLabs k v =
      ((k ≡ "pickforge-lab") ⊎ (k ≡ "pickforge-lab-browser"))
      ⊎ (((k ≡ "picklab") × IsOwn ("mcp" ∷ "serve" ∷ []) v)
          ⊎ ((k ≡ "picklab-browser") × IsOwn ("browser" ∷ "devtools-mcp" ∷ []) v))

  same_text_iff : (s t : Option String) → same_text s t ≡ true ↔ (s ≡ t)
  same_text_iff none none = (λ h. refl, λ h. refl)
  same_text_iff none (some t) = (λ h. ground (arith, h), λ h. ground (arith, h))
  same_text_iff (some s) none = (λ h. ground (arith, h), λ h. ground (arith, h))
  same_text_iff (some s) (some t) =
      (λ h. ap some ((eq_iff s t).0 h), λ h. (eq_iff s t).1 (ground (arith, h)))

  is_string_of_iff : (v : Json) (t : String) → is_string_of v t ≡ true ↔ (v ≡ str t)
  is_string_of_iff (str s) t =
      (λ h. ap str ((eq_iff s t).0 h), λ h. (eq_iff s t).1 (ground (arith, h)))
  is_string_of_iff undefined t = (λ h. ground (arith, h), λ h. ground (arith, h))
  is_string_of_iff null t = (λ h. ground (arith, h), λ h. ground (arith, h))
  is_string_of_iff (bool b) t = (λ h. ground (arith, h), λ h. ground (arith, h))
  is_string_of_iff (num n) t = (λ h. ground (arith, h), λ h. ground (arith, h))
  is_string_of_iff (arr items) t = (λ h. ground (arith, h), λ h. ground (arith, h))
  is_string_of_iff (obj fs) t = (λ h. ground (arith, h), λ h. ground (arith, h))

  -- The code's test of an older entry.
  abbrev pub matches : List String → Json → Bool
  unfolding entry_matches
  matches args v = entry_matches stringify v (record { command = "picklab"; args = args })

  matches_iff : (args : List String) (v : Json) → matches args v ≡ true ↔ IsOwn args v
  unfolding entry_matches
  matches_iff args (obj fs) =
      let command = is_string_of_iff (prop "command" fs) "picklab" in
      let same = same_text_iff (stringify (prop "args" fs)) (stringify (arr (items_of args))) in
      (
        λ h. (command.0 (ground (arith, h)), same.0 (ground (arith, h))),
        λ h. ground (arith, command.1 (h.0), same.1 (h.1)),
      )
  matches_iff args undefined = (λ h. ground (arith, h), λ h. elim h [ ])
  matches_iff args null = (λ h. ground (arith, h), λ h. elim h [ ])
  matches_iff args (bool b) = (λ h. ground (arith, h), λ h. elim h [ ])
  matches_iff args (num n) = (λ h. ground (arith, h), λ h. elim h [ ])
  matches_iff args (str t) = (λ h. ground (arith, h), λ h. elim h [ ])
  matches_iff args (arr items) = (λ h. ground (arith, h), λ h. elim h [ ])

  abbrev pub is_labs : String → Json → Bool
  is_labs k v =
      (str_eq k "pickforge-lab" || str_eq k "pickforge-lab-browser")
      || ((str_eq k "picklab" && matches ("mcp" ∷ "serve" ∷ []) v)
          || (str_eq k "picklab-browser" && matches ("browser" ∷ "devtools-mcp" ∷ []) v))

  pub is_labs-IsLabs : (k : String) (v : Json) → is_labs k v ≡ true → IsLabs k v
  is_labs-IsLabs k v h = elim (Bool-cases (str_eq k "pickforge-lab")) [
    | inl e ↦ inl (inl ((eq_iff k "pickforge-lab").0 e))
    | inr n ↦ elim (Bool-cases (str_eq k "pickforge-lab-browser")) [
      | inl e ↦ inl (inr ((eq_iff k "pickforge-lab-browser").0 e))
      | inr n' ↦ elim (Bool-cases (str_eq k "picklab" && matches ("mcp" ∷ "serve" ∷ []) v)) [
        | inl e ↦ inr (
            inl (
              (eq_iff k "picklab").0 (ground (arith, e)),
              (matches_iff ("mcp" ∷ "serve" ∷ []) v).0 (ground (arith, e)),
            ))
        | inr n'' ↦ inr (
            inr (
              (eq_iff k "picklab-browser").0 (ground (arith, h, n, n', n'')),
              (matches_iff ("browser" ∷ "devtools-mcp" ∷ []) v).0 (ground (arith, h, n, n', n'')),
            ))
      ]
    ]
  ]

  pub IsLabs-is_labs : (k : String) (v : Json) → IsLabs k v → is_labs k v ≡ true
  IsLabs-is_labs k v (inl (inl e)) = ground (arith, (eq_iff k "pickforge-lab").1 e)
  IsLabs-is_labs k v (inl (inr e)) = ground (arith, (eq_iff k "pickforge-lab-browser").1 e)
  IsLabs-is_labs k v (inr (inl (e, own))) =
      ground (arith, (eq_iff k "picklab").1 e, (matches_iff ("mcp" ∷ "serve" ∷ []) v).1 own)
  IsLabs-is_labs k v (inr (inr (e, own))) = ground (
    arith,
    (eq_iff k "picklab-browser").1 e,
    (matches_iff ("browser" ∷ "devtools-mcp" ∷ []) v).1 own,
  )

  names_it-append :
      (xs ys : List String) (k : String) → names_it (xs ++ ys) k ≡ names_it xs k || names_it ys k
  names_it-append [] ys k = refl
  names_it-append (x ∷ xs) ys k = ground (arith, names_it-append xs ys k)

  current_names :
      (servers : Fields) (k : String) (v : Json)
      → get k servers ≡ some v
      → names_it
          (keep (λ name. has name servers) (mcp_server_name ∷ browser_mcp_server_name ∷ []))
          k
        ≡ str_eq k "pickforge-lab" || str_eq k "pickforge-lab-browser"
  unfolding has
  current_names servers k v e = ground (
    arith,
    e,
    eq_iff k "pickforge-lab",
    eq_iff "pickforge-lab" k,
    eq_iff k "pickforge-lab-browser",
    eq_iff "pickforge-lab-browser" k,
  )

  names_it-if :
      (found : Bool) (name : String) (names : List String) (k : String)
      → names_it (if found then name ∷ names else names) k
        ≡ (str_eq name k && found) || names_it names k
  names_it-if true name names k = ground arith
  names_it-if false name names k = ground arith

  prop-get :
      (servers : Fields) (k : String) (v : Json) → get k servers ≡ some v → prop k servers ≡ v
  unfolding prop
  prop-get servers k v e = ground (arith, e)

  legacy_name :
      (servers : Fields) (name k : String) (v : Json) (args : List String)
      → get k servers ≡ some v
      → str_eq name k && matches args (prop name servers) ≡ str_eq k name && matches args v
  legacy_name servers name k v args e = elim (Bool-cases (str_eq name k)) [
    | inl same ↦
        let names : name ≡ k = (eq_iff name k).0 same in
        let value : prop name servers ≡ v =
          ap (λ j. prop j servers) names ∙ prop-get servers k v e in
        let matched : matches args (prop name servers) ≡ matches args v = ap (matches args) value in
        ground (arith, same, matched, (eq_iff k name).1 (sym names))
    | inr other ↦ ground (arith, other, eq_iff k name, eq_iff name k)
  ]

  legacy_names :
      (servers : Fields) (k : String) (v : Json)
      → get k servers ≡ some v
      → names_it (owned_legacy_entry_names stringify servers) k
        ≡ (str_eq k "picklab" && matches ("mcp" ∷ "serve" ∷ []) v)
          || (str_eq k "picklab-browser" && matches ("browser" ∷ "devtools-mcp" ∷ []) v)
  unfolding owned_legacy_entry_names legacy_mcp_server_entries entry_matches
  legacy_names servers k v e =
      let browser = matches ("browser" ∷ "devtools-mcp" ∷ []) (prop "picklab-browser" servers) in
      let older : List String = if browser then "picklab-browser" ∷ [] else [] in
      names_it-if (matches ("mcp" ∷ "serve" ∷ []) (prop "picklab" servers)) "picklab" older k
      ∙ (ap
            (λ b.
              (str_eq "picklab" k && matches ("mcp" ∷ "serve" ∷ []) (prop "picklab" servers)) || b)
            (names_it-if browser "picklab-browser" [] k)
          ∙ ground (
            arith,
            legacy_name servers "picklab" k v ("mcp" ∷ "serve" ∷ []) e,
            legacy_name servers "picklab-browser" k v ("browser" ∷ "devtools-mcp" ∷ []) e,
          ))

  -- The names that the code collects hold the name of a server exactly if it is the lab's.
  pub names_to_remove-is_labs :
      (servers : Fields) (k : String) (v : Json)
      → get k servers ≡ some v
      → names_it (names_to_remove stringify servers) k ≡ is_labs k v
  names_to_remove-is_labs servers k v e = ground (
    arith,
    names_it-append
        (keep (λ name. has name servers) (mcp_server_name ∷ browser_mcp_server_name ∷ []))
        (owned_legacy_entry_names stringify servers) k,
    current_names servers k v e,
    legacy_names servers k v e,
  )
