-- ===== src/Dependency.antt =====
-- src/common/dependency_check.cpp: what is compiled in, and the warnings on `std::cerr`. `built_with_ssl` says
-- whether `NETMON_SSL_ENABLED` is defined.
use netmon_plugins.Prelude.{Bool, true, false, ◌||◌, if◌then◌else◌, [], ◌∷◌, ◌++◌, is_empty}
use netmon_plugins.Prelude.Text.{Bytes, codes, concat, text_eq}

unfoldable pub check_openssl_available : Bool → Bool
check_openssl_available built_with_ssl = if built_with_ssl then true else false

unfoldable pub check_library_available : Bool → Bytes → Bool
check_library_available built_with_ssl library_name =
    if text_eq library_name (codes "openssl") || text_eq library_name (codes "ssl")
    then check_openssl_available built_with_ssl
    else false

-- `<< std::endl`
abbrev pub end_line : Bytes → Bytes
end_line t = t ++ 10 ∷ []

-- `showDependencyWarning`: what is written to `std::cerr`.
unfoldable pub dependency_warning : Bytes → Bytes → Bytes → Bytes
dependency_warning plugin_name dependency fallback = concat (
    end_line (
      concat (
        codes "WARNING: "
        ∷ plugin_name
        ∷ codes " requires "
        ∷ dependency
        ∷ codes " but it is not available."
        ∷ []))
    ∷ (if is_empty fallback then [] else end_line (codes "         Falling back to: " ++ fallback))
    ∷ end_line (
        concat (
          codes "         Install "
          ∷ dependency
          ∷ codes " development libraries and rebuild with support enabled."
          ∷ []))
    ∷ end_line (codes "         Example: make build ENABLE_SSL=ON")
    ∷ [])

-- `showFeatureWarning`
unfoldable pub feature_warning : Bytes → Bytes → Bytes
feature_warning feature reason =
    end_line (concat (codes "WARNING: " ∷ feature ∷ codes " is not available: " ∷ reason ∷ []))
