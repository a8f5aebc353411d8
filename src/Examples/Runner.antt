-- ===== src/Examples/Runner.antt =====
-- What the runs of the examples go through: all of the code that is modelled.
use mathlib.Core.List.{flat_map}

unfoldable pub code : Unit {0}
unfolding appstore_gerege_nexus.Text.is_space appstore_gerege_nexus.Text.trim_left
    appstore_gerege_nexus.Text.trim_right appstore_gerege_nexus.Text.trim_space
    appstore_gerege_nexus.Text.equal_fold appstore_gerege_nexus.Text.split_on
    appstore_gerege_nexus.Text.before appstore_gerege_nexus.Text.to_lower
    appstore_gerege_nexus.Sorting.insert_by appstore_gerege_nexus.Sorting.order_by
    appstore_gerege_nexus.World.settle appstore_gerege_nexus.World.under_faults
    appstore_gerege_nexus.World.statement appstore_gerege_nexus.World.query
    appstore_gerege_nexus.World.pure appstore_gerege_nexus.World.raise
    appstore_gerege_nexus.World.lift appstore_gerege_nexus.World.defer_to
    appstore_gerege_nexus.World.ignore appstore_gerege_nexus.World.execute
    appstore_gerege_nexus.World.◌>>=◌ appstore_gerege_nexus.World.transaction
    appstore_gerege_nexus.World.attempt appstore_gerege_nexus.Review.handle_history
    appstore_gerege_nexus.Review.handle_publishers
    appstore_gerege_nexus.Review.handle_verify_publisher appstore_gerege_nexus.Review.handle_queue
    appstore_gerege_nexus.Review.handle_decision appstore_gerege_nexus.Publisher.publisher_for
    appstore_gerege_nexus.Publisher.handle_profile appstore_gerege_nexus.Publisher.own_app
    appstore_gerege_nexus.Publisher.handle_save_profile
    appstore_gerege_nexus.Publisher.handle_list_apps appstore_gerege_nexus.Publisher.app_refusal
    appstore_gerege_nexus.Publisher.handle_upsert_app
    appstore_gerege_nexus.Publisher.handle_list_versions
    appstore_gerege_nexus.Publisher.handle_submit_version
    appstore_gerege_nexus.Registry.Versions.external_registration
    appstore_gerege_nexus.Registry.Versions.scan_version
    appstore_gerege_nexus.Registry.Versions.version_by_id
    appstore_gerege_nexus.Registry.Versions.scan_all
    appstore_gerege_nexus.Registry.Versions.versions_of
    appstore_gerege_nexus.Registry.Versions.list_versions
    appstore_gerege_nexus.Registry.Versions.attach_apps
    appstore_gerege_nexus.Registry.Versions.review_queue_rows
    appstore_gerege_nexus.Registry.Versions.list_review_queue
    appstore_gerege_nexus.Registry.Versions.chronicle_rows
    appstore_gerege_nexus.Registry.Versions.chronicle appstore_gerege_nexus.Registry.Public.app_view
    appstore_gerege_nexus.Registry.Public.app_views
    appstore_gerege_nexus.Registry.Public.answer_catalog
    appstore_gerege_nexus.Registry.Public.render_page
    appstore_gerege_nexus.Registry.Public.handle_list_apps
    appstore_gerege_nexus.Registry.Public.handle_get_app
    appstore_gerege_nexus.Registry.Public.handle_list_versions
    appstore_gerege_nexus.Registry.Public.handle_chronicle
    appstore_gerege_nexus.Registry.Public.touch appstore_gerege_nexus.Registry.Public.serve_catalog
    appstore_gerege_nexus.Registry.Public.handle_catalog
    appstore_gerege_nexus.Registry.Public.handle_keys
    appstore_gerege_nexus.Registry.Public.handle_registry_state
    appstore_gerege_nexus.Registry.Public.handle_rebuild_snapshots
    appstore_gerege_nexus.Registry.Decisions.status_for
    appstore_gerege_nexus.Registry.Decisions.update_version
    appstore_gerege_nexus.Registry.Decisions.update_provenance
    appstore_gerege_nexus.Registry.Decisions.publish_provenance
    appstore_gerege_nexus.Registry.Decisions.decide_body
    appstore_gerege_nexus.Registry.Decisions.decide_status
    appstore_gerege_nexus.Registry.Decisions.decide_version
    appstore_gerege_nexus.Registry.Decisions.review_history
    appstore_gerege_nexus.Registry.Apps.latest_version appstore_gerege_nexus.Registry.Apps.joined
    appstore_gerege_nexus.Registry.Apps.find_app appstore_gerege_nexus.Registry.Apps.app_by_id
    appstore_gerege_nexus.Registry.Apps.app_by_slug appstore_gerege_nexus.Registry.Apps.put_text
    appstore_gerege_nexus.Registry.Apps.save_texts appstore_gerege_nexus.Registry.Apps.list_apps
    appstore_gerege_nexus.Registry.Apps.upsert_row appstore_gerege_nexus.Registry.Apps.upsert_body
    appstore_gerege_nexus.Registry.Apps.upsert_app appstore_gerege_nexus.Registry.Signing.new_signer
    appstore_gerege_nexus.Registry.Signing.public_key appstore_gerege_nexus.Registry.Signing.sign
    appstore_gerege_nexus.Registry.Signing.sign_document
    appstore_gerege_nexus.Registry.Headers.etag_matches
    appstore_gerege_nexus.Registry.Headers.locale_from appstore_gerege_nexus.Registry.Build.texts_of
    appstore_gerege_nexus.Registry.Build.app_texts appstore_gerege_nexus.Registry.Build.put_app
    appstore_gerege_nexus.Registry.Build.translate_all
    appstore_gerege_nexus.Registry.Build.catalog_rows
    appstore_gerege_nexus.Registry.Build.platform_allows appstore_gerege_nexus.Registry.Build.choose
    appstore_gerege_nexus.Registry.Build.choose_row appstore_gerege_nexus.Registry.Build.choose_all
    appstore_gerege_nexus.Registry.Build.finish appstore_gerege_nexus.Registry.Build.build
    appstore_gerege_nexus.Registry.Submissions.json_or_null
    appstore_gerege_nexus.Registry.Submissions.json_or_default
    appstore_gerege_nexus.Registry.Submissions.put_external
    appstore_gerege_nexus.Registry.Submissions.save_external
    appstore_gerege_nexus.Registry.Submissions.insert_version
    appstore_gerege_nexus.Registry.Submissions.add_event
    appstore_gerege_nexus.Registry.Submissions.external_from_manifest
    appstore_gerege_nexus.Registry.Submissions.submitted_row
    appstore_gerege_nexus.Registry.Submissions.submit_body
    appstore_gerege_nexus.Registry.Submissions.submit_encoded
    appstore_gerege_nexus.Registry.Submissions.submit_version
    appstore_gerege_nexus.Registry.Submissions.refusal
    appstore_gerege_nexus.Registry.Submissions.submit_checked
    appstore_gerege_nexus.Registry.Submissions.submit_manifest
    appstore_gerege_nexus.Registry.Cache.revision
    appstore_gerege_nexus.Registry.Cache.discard_snapshots
    appstore_gerege_nexus.Registry.Cache.bump_revision appstore_gerege_nexus.Registry.Cache.cached
    appstore_gerege_nexus.Registry.Cache.load_snapshot
    appstore_gerege_nexus.Registry.Cache.newest_platforms
    appstore_gerege_nexus.Registry.Cache.prune_rows
    appstore_gerege_nexus.Registry.Cache.prune_snapshots
    appstore_gerege_nexus.Registry.Cache.put_snapshot
    appstore_gerege_nexus.Registry.Cache.put_private
    appstore_gerege_nexus.Registry.Cache.insert_private
    appstore_gerege_nexus.Registry.Cache.save_snapshot appstore_gerege_nexus.Registry.Cache.rebuild
    appstore_gerege_nexus.Registry.Cache.serve_held appstore_gerege_nexus.Registry.Cache.catalog
    appstore_gerege_nexus.Registry.Operators.handle_list_platforms
    appstore_gerege_nexus.Registry.Operators.handle_create_platform
    appstore_gerege_nexus.Registry.Operators.handle_set_platform_enabled
    appstore_gerege_nexus.Registry.Operators.handle_grant
    appstore_gerege_nexus.Registry.Operators.handle_revoke
    appstore_gerege_nexus.Registry.Publishers.or_not_found
    appstore_gerege_nexus.Registry.Publishers.publisher_by_tenant
    appstore_gerege_nexus.Registry.Publishers.publisher_by_slug
    appstore_gerege_nexus.Registry.Publishers.publisher_by_id
    appstore_gerege_nexus.Registry.Publishers.upsert_profile
    appstore_gerege_nexus.Registry.Publishers.upsert_publisher
    appstore_gerege_nexus.Registry.Publishers.list_publishers
    appstore_gerege_nexus.Registry.Publishers.update_verified
    appstore_gerege_nexus.Registry.Publishers.set_publisher_verified
    appstore_gerege_nexus.Registry.Platforms.bearer_token
    appstore_gerege_nexus.Registry.Platforms.platform_with_digest
    appstore_gerege_nexus.Registry.Platforms.platform_by_token
    appstore_gerege_nexus.Registry.Platforms.granted
    appstore_gerege_nexus.Registry.Platforms.granted_app_ids
    appstore_gerege_nexus.Registry.Platforms.audience_for
    appstore_gerege_nexus.Registry.Platforms.touch_platform
    appstore_gerege_nexus.Registry.Platforms.insert_platform
    appstore_gerege_nexus.Registry.Platforms.create_platform
    appstore_gerege_nexus.Registry.Platforms.list_platforms
    appstore_gerege_nexus.Registry.Platforms.update_enabled
    appstore_gerege_nexus.Registry.Platforms.set_platform_enabled
    appstore_gerege_nexus.Registry.Platforms.insert_grant
    appstore_gerege_nexus.Registry.Platforms.grant
    appstore_gerege_nexus.Registry.Platforms.delete_grant
    appstore_gerege_nexus.Registry.Platforms.revoke
    appstore_gerege_nexus.Registry.Platforms.without_private
    appstore_gerege_nexus.Registry.Platforms.discard_private_snapshots flat_map
    appstore_gerege_nexus.Registry.Build.Offers.entries
code = tt
