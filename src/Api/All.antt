-- ===== src/Api/All.antt =====
-- include/zenoh_flat.h, all functions.
use zenoh_flat_c.Base.{List, ◌++◌}
use zenoh_flat_c.Api.{Prototype}
use zenoh_flat_c.Api.Config.{config_functions}
use zenoh_flat_c.Api.Encoding.{encoding_functions}
use zenoh_flat_c.Api.Hello.{hello_functions}
use zenoh_flat_c.Api.Keyexpr.{keyexpr_functions}
use zenoh_flat_c.Api.Library.{library_functions}
use zenoh_flat_c.Api.Liveliness.{liveliness_functions}
use zenoh_flat_c.Api.Publisher.{publisher_functions}
use zenoh_flat_c.Api.Querier.{querier_functions}
use zenoh_flat_c.Api.Query.{query_functions}
use zenoh_flat_c.Api.Queryable.{queryable_functions}
use zenoh_flat_c.Api.Reply.{reply_functions}
use zenoh_flat_c.Api.Sample.{sample_functions}
use zenoh_flat_c.Api.Scout.{scout_functions}
use zenoh_flat_c.Api.Session.{session_functions}
use zenoh_flat_c.Api.Subscriber.{subscriber_functions}
use zenoh_flat_c.Api.Timestamp.{timestamp_functions}
use zenoh_flat_c.Api.Zbytes.{zbytes_functions}
use zenoh_flat_c.Api.ZenohId.{zenoh_id_functions}
use zenoh_flat_c.Api.Encoding.Constants.{encoding_constants}

abbrev pub all_functions : List Prototype
all_functions =
    config_functions
    ++ (encoding_functions
        ++ (hello_functions
            ++ (keyexpr_functions
                ++ (library_functions
                    ++ (liveliness_functions
                        ++ (publisher_functions
                            ++ (querier_functions
                                ++ (query_functions
                                    ++ (queryable_functions
                                        ++ (reply_functions
                                            ++ (sample_functions
                                                ++ (scout_functions
                                                    ++ (session_functions
                                                        ++ (subscriber_functions
                                                            ++ (timestamp_functions
                                                            ++ (zbytes_functions
                                                            ++ (zenoh_id_functions
                                                            ++ (encoding_constants))))))))))))))))))
