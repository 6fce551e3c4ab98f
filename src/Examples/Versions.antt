-- ===== src/Examples/Versions.antt =====
-- The theorem about the version script at small files.
use sonicwall_sdk.Prelude.{String, true, ◌≡◌, refl, some}
use sonicwall_sdk.VersionSync.{
  Files, main, with_version, version_of, is_semver, python_prefix, npm_prefix,
}
use sonicwall_sdk.VersionSync.Aligned.{IsAligned, main-IsAligned}

abbrev old : Files
old = record {
  pyproject = "[project]\nversion = \"0.1.0\"\n";
  package_json = "{\n  \"version\": \"0.1.0\",\n}\n";
  version_go = "";
  pom = "<artifactId>sonicwall-sdk</artifactId>\n  <version>0.1.0</version>";
  version_java = "";
}

main-IsAligned_example :
    (ver : String) × (version_of "2.0.0\n" ≡ some ver)
    × (is_semver ver ≡ true)
    × IsAligned python_prefix ver old.pyproject (with_version "2.0.0" old).pyproject
    × IsAligned npm_prefix ver old.package_json (with_version "2.0.0" old).package_json
unfolding main
main-IsAligned_example = main-IsAligned (λ s. s) "2.0.0\n" old (with_version "2.0.0" old) refl
