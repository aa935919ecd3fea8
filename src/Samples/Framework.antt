-- ===== src/Samples/Framework.antt =====
-- A Terraform framework that converts texts, and a cluster, for the tests.
use mathlib.Core.Option
use terraform_provider_ocm.Prelude.{
  String, ◌≡◌, refl, true, false, Option, none, some, List, [], ◌∷◌, map, pos, Dict, ap,
}
use terraform_provider_ocm.Common.Attribute.{Value, null, unknown, known}
use terraform_provider_ocm.Common.Framework.{Framework, known_entry}
use terraform_provider_ocm.Sdk.{Cluster, ready}
use mathlib.Core.Option
use terraform_provider_ocm.Prelude.{
  String, ◌≡◌, refl, true, false, Option, none, some, List, [], ◌∷◌, pos, Dict, ap, map, Option,
}
use terraform_provider_ocm.Common.Framework.{IsStandard, known_entry}
use terraform_provider_ocm.Common.Attribute.{null, known}

abbrev pub texts_of : List (Value String) → Option (List String)
texts_of [] = some []
texts_of (null ∷ vs) = none
texts_of (unknown ∷ vs) = none
texts_of (known s ∷ vs) = Option.map (λ rest. s ∷ rest) (texts_of vs)

abbrev pub entries_of : Dict (Value String) → Option (Dict String)
entries_of [] = some []
entries_of ((k, null) ∷ m) = none
entries_of ((k, unknown) ∷ m) = none
entries_of ((k, known s) ∷ m) = Option.map (λ rest. (k, s) ∷ rest) (entries_of m)

abbrev pub framework : Framework
framework = record {
  list_elements_as = texts_of;
  map_elements_as = entries_of;
  list_value = λ vs. (known vs, false);
  map_value = λ m. (known m, false);
}

abbrev pub cluster : Cluster
cluster = record {
  id = "c1";
  channel_group = "stable";
  state = ready;
  compute = pos 2;
  current_compute = pos 2;
  multi_az = true;
  availability_zones = "us-east-1a" ∷ "us-east-1b" ∷ "us-east-1c" ∷ [];
  version = "4.14.0";
  aws_tags = some (("owner", "team") ∷ []);
}

texts_of-map : (xs : List String) → texts_of (map known xs) ≡ some xs
texts_of-map [] = refl
texts_of-map (x ∷ xs) = ap (λ rest. Option.map (λ ys. x ∷ ys) rest) (texts_of-map xs)

entries_of-map : (m : Dict String) → entries_of (map known_entry m) ≡ some m
entries_of-map [] = refl
entries_of-map ((k, v) ∷ m) = ap (λ rest. Option.map (λ n. (k, v) ∷ n) rest) (entries_of-map m)

pub framework-IsStandard : IsStandard framework
framework-IsStandard = record {
  list_as_known = texts_of-map;
  map_as_known = entries_of-map;
  list_value_known = λ xs. refl;
  map_value_known = λ m. refl;
}
