-- ===== src/Sql/Queries.antt =====
-- src/sql/metadata.rs, `MetadataQuery`: the queries of the shell's metadata commands.
use dsql_cli.Prelude.{Option, none, some, List, [], ◌∷◌, ◌++◌, Bytes, Chars, codes}
use dsql_cli.Sql.Catalog.{relation_pattern}

pub data MetadataQuery : Type 0 where
  relations tables schemas roles : MetadataQuery

unfoldable pub relations_sql : Bytes
relations_sql =
    codes "\nSELECT n.nspname::text AS \"Schema\",\n"
    ++ (codes "       c.relname::text AS \"Name\",\n"
        ++ (codes "       CASE c.relkind\n"
            ++ (codes "           WHEN 'r' THEN 'table'\n"
                ++ (codes "           WHEN 'p' THEN 'partitioned table'\n"
                    ++ (codes "           WHEN 'v' THEN 'view'\n"
                        ++ (codes "           WHEN 'm' THEN 'materialized view'\n"
                            ++ (codes "           WHEN 'f' THEN 'foreign table'\n"
                                ++ (codes "           WHEN 'S' THEN 'sequence'\n"
                                    ++ (codes "           WHEN 'c' THEN 'composite type'\n"
                                        ++ (codes "           ELSE c.relkind::text\n"
                                            ++ (codes "       END::text AS \"Type\",\n"
                                                ++ (codes
                                                      "       pg_catalog.pg_get_userbyid(c.relowner)::text AS \"Owner\"\n"
                                                    ++ (codes "FROM pg_catalog.pg_class AS c\n"
                                                        ++ (codes
                                                            "JOIN pg_catalog.pg_namespace AS n ON n.oid = c.relnamespace\n"
                                                            ++ (codes
                                                            "WHERE c.relkind IN ('r', 'p', 'v', 'm', 'f', 'S', 'c')\n"
                                                            ++ (codes
                                                            "  AND pg_catalog.pg_table_is_visible(c.oid)\n"
                                                            ++ (codes
                                                            "  AND c.relname LIKE $1 ESCAPE '\\'\n"
                                                            ++ (codes
                                                            "ORDER BY 1, 2\n"))))))))))))))))))

unfoldable pub tables_sql : Bytes
tables_sql =
    codes "\nSELECT n.nspname::text AS \"Schema\",\n"
    ++ (codes "       c.relname::text AS \"Name\",\n"
        ++ (codes "       pg_catalog.pg_get_userbyid(c.relowner)::text AS \"Owner\"\n"
            ++ (codes "FROM pg_catalog.pg_class AS c\n"
                ++ (codes "JOIN pg_catalog.pg_namespace AS n ON n.oid = c.relnamespace\n"
                    ++ (codes "WHERE c.relkind IN ('r', 'p')\n"
                        ++ (codes "  AND pg_catalog.pg_table_is_visible(c.oid)\n"
                            ++ (codes "  AND c.relname LIKE $1 ESCAPE '\\'\n"
                                ++ (codes "ORDER BY 1, 2\n"))))))))

unfoldable pub schemas_sql : Bytes
schemas_sql =
    codes "\nSELECT schema_name::text AS \"Name\",\n"
    ++ (codes "       schema_owner::text AS \"Owner\"\n"
        ++ (codes "FROM information_schema.schemata\n"
            ++ (codes "WHERE schema_name <> 'information_schema'\n"
                ++ (codes "  AND schema_name NOT LIKE 'pg_%'\n"
                    ++ (codes "  AND schema_name LIKE $1 ESCAPE '\\'\n"
                        ++ (codes "ORDER BY 1\n"))))))

unfoldable pub roles_sql : Bytes
roles_sql =
    codes "\nSELECT rolname::text AS \"Role name\",\n"
    ++ (codes "       rolcanlogin::text AS \"Can login\",\n"
        ++ (codes "       rolsuper::text AS \"Superuser\"\n"
            ++ (codes "FROM pg_catalog.pg_roles\n" ++ (codes "ORDER BY 1\n"))))

unfoldable pub sql : MetadataQuery → Bytes
unfolding relations_sql tables_sql schemas_sql roles_sql
sql relations = relations_sql
sql tables = tables_sql
sql schemas = schemas_sql
sql roles = roles_sql

abbrev pub one_pattern : Option Chars → List Chars
one_pattern none = codes "%" ∷ []
one_pattern (some pattern) = relation_pattern pattern ∷ []

unfoldable pub params : MetadataQuery → Option Chars → List Chars
params relations pattern = one_pattern pattern
params tables pattern = one_pattern pattern
params schemas pattern = one_pattern pattern
params roles pattern = []
