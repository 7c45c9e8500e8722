-- ===== src/Package/Tests.antt =====
-- src/package.c on concrete texts.
use myon.Base.{◌≡◌, refl, false, some, none, Bytes}
use myon.Base.Text.{codes}
use myon.Package.Errors.{accepted}
use myon.Package.Names.{valid_repo_segment, pkg_validate_module_name, pkg_validate_package_name}
use myon.Package.Names.Modules.{no_error, is_module_name, pkg_validate_module_name_lem}
use myon.Package.Source.{PkgSource, pkg_source_parse}
use myon.Package.Pinned.{IsSource, pinned, pkg_source_parse-pinned, pkg_source_parse-IsSource}
use myon.Package.Url.{PkgInstallUrl, ref_branch}

abbrev json : PkgSource
json = record {
  owner = codes "acme";
  repo = codes "json.my";
  sha = codes "0123456789abcdef0123456789abcdef01234567";
}

json-IsSource : IsSource json
unfolding valid_repo_segment
json-IsSource = record { owner_valid = refl; repo_valid = refl; sha_full = refl }

pkg_source_parse-pinned_example : pkg_source_parse (pinned json) 3 ≡ accepted json
pkg_source_parse-pinned_example = pkg_source_parse-pinned json 3 json-IsSource

abbrev json_text : Bytes
json_text = codes "github:acme/json.my@0123456789abcdef0123456789abcdef01234567"

pkg_source_parse-IsSource_example : IsSource json × (json_text ≡ pinned json)
unfolding pkg_source_parse valid_repo_segment
pkg_source_parse-IsSource_example = pkg_source_parse-IsSource json_text 3 json refl

abbrev json_url : PkgInstallUrl
json_url = record {
  owner = codes "acme";
  repo = codes "json.my";
  ref_kind = ref_branch;
  ref = some (codes "main");
}

pkg_validate_module_name_lem_example :
    no_error (pkg_validate_module_name (codes "acme.json-2") 1)
    ≡ is_module_name (codes "acme.json-2")
pkg_validate_module_name_lem_example = pkg_validate_module_name_lem (codes "acme.json-2") 1

-- A digit may not stand first.
digit_first : is_module_name (codes "acme.2json") ≡ false
digit_first = refl

package_name : pkg_validate_package_name (codes "acme.json") 1 ≡ none
unfolding pkg_validate_package_name
package_name = refl
