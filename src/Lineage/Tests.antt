-- ===== src/Lineage/Tests.antt =====
-- The lineage theorems at two pipelines: raw orders feed staged orders, which feed a report.
use clean_data_platform_airf.Prelude.{
  ◌≡◌, refl, String, Option, none, some, List, [], ◌∷◌, format, format,
}
use clean_data_platform_airf.Prelude.Dict.{lookup, insert}
use clean_data_platform_airf.Errors.{ok}
use clean_data_platform_airf.Lineage.Mapping.{ElementLineage, LineageMapping}
use clean_data_platform_airf.Lineage.Graph.{
  LineageGraph, node_key, empty, add_node, add_to, add_edge, add_columns, build_from_mappings,
}
use clean_data_platform_airf.Lineage.Graph.WellFormed.{empty-IsWellFormed}
use clean_data_platform_airf.Lineage.Graph.Build.{
  maps_to, mentions, Extends, build_from_mappings-Extends,
}
use clean_data_platform_airf.Lineage.Trace.{
  SetOrder, done, visit, append_found, loop, trace, trace_upstream, trace_downstream,
}
use clean_data_platform_airf.Lineage.Trace.Total.{Lists}
use clean_data_platform_airf.Lineage.Trace.Correct.{trace_downstream-Lists, trace_upstream-Lists}
use clean_data_platform_airf.Lineage.Trace.Dual.{downstream-eq-upstream, lists}

-- Sets gone through in the order in which they were filled.
abbrev filled : SetOrder
filled = record { iterate = λ s. s; iterate_members = λ x s. refl; iterate_length = λ s. refl }

abbrev column : String → String → Option String → ElementLineage
column source destination expression = record {
  source_column = source;
  destination_column = destination;
  transformation_expression = expression;
}

abbrev staging : LineageMapping
staging = record {
  id = "m1";
  pipeline_id = "p1";
  source_object_id = "raw";
  destination_object_id = "staged";
  column_mappings =
      column "id" "id" none
      ∷ column "price" "total" (some "sum(price)")
      ∷ column "price" "last_price" none
      ∷ [];
  updated_at = 1;
}

abbrev reporting : LineageMapping
reporting = record {
  id = "m2";
  pipeline_id = "p2";
  source_object_id = "staged";
  destination_object_id = "report";
  column_mappings =
      column "total" "revenue" none ∷ column "last_price" "revenue" (some "max(last_price)") ∷ [];
  updated_at = 2;
}

abbrev pipelines : List LineageMapping
pipelines = staging ∷ reporting ∷ []

abbrev built_graph : LineageGraph
built_graph = elim (build_from_mappings pipelines empty) [ ok g ↦ g | _ ↦ empty ]

built_graph-eq : build_from_mappings pipelines empty ≡ ok built_graph
unfolding build_from_mappings add_columns add_edge add_to add_node lookup insert node_key format
built_graph-eq = refl

staged_price :
    trace_downstream filled built_graph "raw" "price"
    ≡ done (
        record { object_id = "staged"; column_name = "last_price"; transformation = none }
        ∷ record { object_id = "report"; column_name = "revenue"; transformation = none }
        ∷ record { object_id = "staged"; column_name = "total"; transformation = some "sum(price)" }
        ∷ [])
unfolding trace_downstream trace loop visit append_found build_from_mappings add_columns add_edge
    add_to add_node lookup insert node_key format
staged_price = refl

trace_downstream-Lists_example :
    Lists
      (maps_to pipelines)
      (node_key "raw" "price")
      (trace_downstream filled built_graph "raw" "price")
trace_downstream-Lists_example =
    trace_downstream-Lists filled pipelines built_graph built_graph-eq "raw" "price"

trace_upstream-Lists_example :
    Lists
      (λ u v. maps_to pipelines v u)
      (node_key "report" "revenue")
      (trace_upstream filled built_graph "report" "revenue")
trace_upstream-Lists_example =
    trace_upstream-Lists filled pipelines built_graph built_graph-eq "report" "revenue"

downstream-eq-upstream_example :
    lists (trace_downstream filled built_graph "raw" "price") (node_key "report" "revenue")
    ≡ lists (trace_upstream filled built_graph "report" "revenue") (node_key "raw" "price")
downstream-eq-upstream_example =
    downstream-eq-upstream filled filled pipelines built_graph built_graph-eq "raw" "price" "report"
      "revenue"

build_from_mappings-Extends_example :
    Extends empty (maps_to pipelines) (mentions pipelines) (build_from_mappings pipelines empty)
build_from_mappings-Extends_example = build_from_mappings-Extends pipelines empty empty-IsWellFormed
